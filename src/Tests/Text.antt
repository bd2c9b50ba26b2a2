-- ===== src/Tests/Text.antt =====
-- Concrete inputs for formats, digits, the screen and the shell.
use relics.Prelude.{
  codes, ◌<◌, ℕ, ◌^◌, ◌+◌, ◌*◌, ◌≡◌, inl, refl, some, false, List, [], ◌∷◌, ◌++◌, length, arith,
  Memory, ltb, if◌then◌else◌,
}
use relics.String.{memcmp, strncmp}
use relics.Shell.{
  fetchme, Shell, sleep_builtin, nothing, select, starts_with, echo, echo_builtin, clear_line,
}
use relics.Shell.Session.{Cpu, session_loop}
use relics.Shell.Echo.{echo_line}
use relics.Shell.Fetch.{vendor, identified_text, summary, session_loop-fetches}
use relics.Cpu.{
  set_cpu_vendor_name, register_bytes, until_nul, Processor, CpuFeatures, has_fpu, has_eflag,
}
use relics.Cpu.Table.{cpuidstruct_ecx, cpuidstruct_edx}
use relics.Cpu.Features.{names}
use relics.Shell.Line.{typed, at_prompt}
use relics.Kio.Digits.{decimal_to_base}
use relics.Kio.Digits.Base.{Prints, decimal_to_base-Prints}
use relics.Kio.Format.{signed}
use relics.Kio.Format.Pieces.{Piece, plain, int, characters, formatted, meant}
use relics.Kio.Digits.{zero_extend, milliseconds_as_seconds}
use relics.Kio.Digits.Numeral.{Written}
use relics.Kio.Digits.Seconds.{seconds_text, milliseconds_as_seconds-writes}
use relics.Kio.Log.{Pointer, literal}
use relics.Kio.Console.{
  Console, vga_length, vga_width, vga_entry, clear_vga_buffer, scroll_cells, print_char,
  print_string,
}
use relics.Kio.Console.Screen.{clear_vga_buffer-blanks, scroll_cells-moves}
use relics.Kio.Console.Cursor.{Synced, cursor, shown, print_char-Synced, print_string-writes}

decimal_to_base-Prints_example : Prints 255 16 false (decimal_to_base 65 255 16 false)
decimal_to_base-Prints_example =
    decimal_to_base-Prints 255 16 false (omega arith) (omega arith) (omega arith)

abbrev blank_console : Console
blank_console = record {
  vga_buffer = λ i. 7;
  vga_index = 78;
  next_line_index = 1;
  g_fore_color = 15;
  g_back_color = 1;
  ports = [];
}

print_string-writes_example :
    Synced (print_string (b'H' ∷ b'i' ∷ b'!' ∷ []) blank_console)
    × ((print_string (b'H' ∷ b'i' ∷ b'!' ∷ []) blank_console).vga_index ≡ 81)
    × ((print_string (b'H' ∷ b'i' ∷ b'!' ∷ []) blank_console).vga_buffer 79
        ≡ shown 78 (λ ch. vga_entry ch 15 1) (b'H' ∷ b'i' ∷ b'!' ∷ []) (λ i. 7) 79)
print_string-writes_example =
    print_string-writes (b'H' ∷ b'i' ∷ b'!' ∷ []) blank_console 79
      (
        (omega arith, omega arith, omega arith, omega arith),
        (
          (omega arith, omega arith, omega arith, omega arith),
          ((omega arith, omega arith, omega arith, omega arith), tt),
        ),
      )
      (omega arith, omega arith) (omega arith)

print_char-Synced_example :
    Synced (print_char 10 blank_console)
    × (cursor (print_char 10 blank_console).ports ≡ some (print_char 10 blank_console).vga_index)
print_char-Synced_example =
    print_char-Synced 10 blank_console (omega arith, omega arith) (omega arith) (omega arith)
      (omega arith) (inl refl)

abbrev ramp : Memory
ramp i = i

scroll_cells-moves_example : scroll_cells 15 0 ramp 1919 ≡ (
    if ltb 1919 1920
    then ramp (1919 + 80)
    else if ltb 1919 2000
    then vga_entry 0 15 0
    else ramp 1919)
scroll_cells-moves_example = scroll_cells-moves 15 0 ramp 1919

clear_vga_buffer-blanks_example :
    clear_vga_buffer 15 0 ramp 1999
    ≡ (if ltb 1999 (vga_length * vga_width) then vga_entry 0 15 0 else ramp 1999)
clear_vga_buffer-blanks_example = clear_vga_buffer-blanks 15 0 ramp 1999

-- "echo hi"
abbrev echo_hi : List ℕ
echo_hi = b'e' ∷ b'c' ∷ b'h' ∷ b'o' ∷ 32 ∷ b'h' ∷ b'i' ∷ []

abbrev blank_line : Memory
blank_line a = 0

echo_hi-select : select (typed echo_hi 0 blank_line) ≡ echo (some (b'h' ∷ b'i' ∷ []))
unfolding select starts_with strncmp memcmp echo_builtin
echo_hi-select = refl

-- "sleep 5": the digit is looked for one place too far.
abbrev sleep_5 : List ℕ
sleep_5 = b's' ∷ b'l' ∷ b'e' ∷ b'e' ∷ b'p' ∷ 32 ∷ b'5' ∷ []

sleep_5-select : select (typed sleep_5 0 blank_line) ≡ nothing
unfolding select starts_with strncmp memcmp sleep_builtin
sleep_5-select = refl

-- "id %d of %s\n"
abbrev pieces : List Piece
pieces =
    plain (codes "id ")
    ∷ int 0xFFFFFFF9
    ∷ plain (codes " of ")
    ∷ characters (codes "disk")
    ∷ plain (10 ∷ [])
    ∷ []

pieces_text : (formatted pieces ≡ codes "id %d of %s\n") × (meant pieces ≡ codes "id -7 of disk\n")
unfolding signed
pieces_text = (refl, refl)

abbrev scratch : Memory
scratch a = b'x'

milliseconds_as_seconds-writes_example :
    Written (seconds_text 61042 8 scratch) 8 scratch (milliseconds_as_seconds 64 61042 8 scratch)
    × (length (seconds_text 61042 8 scratch) < 64)
milliseconds_as_seconds-writes_example =
    milliseconds_as_seconds-writes 61042 8 scratch (omega arith)

-- The last digit of a whole second is what the buffer held.
seconds_texts :
    (seconds_text 61042 8 scratch ≡ codes "61.042") × (seconds_text 5000 8 scratch ≡ codes "5.00x")
unfolding zero_extend
seconds_texts = (refl, refl)

abbrev no_line : Memory
no_line a = 0

-- A processor of family 6 with SSE and `cpuid`, at second 0.
abbrev test_processor : Processor
test_processor = record {
  fsw = 0;
  fcw = 0x37F;
  flags = 0x202;
  flags_flipped = 0x200202;
  vendor_ebx = 0x756E6547;
  vendor_edx = 0x49656E69;
  vendor_ecx = 0x6C65746E;
  signature = 0x306A9;
  features_ecx = 1;
  features_edx = 2 ^ 24 + 2 ^ 25;
}

abbrev zero_clock : ℕ → Pointer
zero_clock line = literal (codes "0.000")

abbrev no_features : CpuFeatures
no_features = record { fpu = false; cpuid = false; sse = false }

abbrev computer : Cpu
computer = record {
  processor = test_processor;
  features = no_features;
  clock = λ printed. zero_clock;
}

-- The same run without its text.
abbrev behind_hello : List ℕ
behind_hello =
    (((codes ">  " ++ echo_line (codes "hello")) ++ codes "\n") ++ (codes "hello" ++ codes "\n"))
    ++ (codes "> " ++ codes " ")

abbrev after_hello : Shell
after_hello =
    at_prompt (clear_line 10 (typed (echo_line (codes "hello")) 0 no_line))
      (echo (echo_builtin 4091 5 (typed (echo_line (codes "hello")) 0 no_line)) ∷ [])

-- Bit 0 of ecx is SSE3; the second loop takes it for the FPU of edx.
names_text : names 1 cpuidstruct_ecx ++ names 1 cpuidstruct_edx ≡ codes "sse3 fpu "
names_text = refl

session_loop-fetches_example :
    session_loop
      (codes "1")
      computer
      (codes "> ")
      (codes "fetchme" ++ 10 ∷ [])
      (at_prompt no_line [])
      (codes ">  ")
    ≡ session_loop
        (codes "1")
        computer
        (codes "> ")
        []
        (at_prompt (clear_line 7 (typed (codes "fetchme") 0 no_line)) (fetchme ∷ []))
        ((identified_text computer ((codes ">  " ++ codes "fetchme") ++ codes "\n")
            ++ meant (summary (codes "1") (until_nul (vendor test_processor))))
          ++ (codes "> " ++ codes " "))
unfolding has_fpu has_eflag
session_loop-fetches_example =
    session_loop-fetches (codes "1") computer (codes "> ") [] no_line [] (codes ">  ") refl refl

-- The name in that summary.
vendor_text : until_nul (vendor test_processor) ≡ codes "GenuineIntel"
unfolding until_nul set_cpu_vendor_name register_bytes
vendor_text = refl
