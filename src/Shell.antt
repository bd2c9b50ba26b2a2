-- ===== src/Shell.antt =====
-- root/libraryOSes/relics-libOS/apps/shell.c: the line buffer and the commands that a line selects.
-- The characters that `getchark` returns are a list; an empty list leaves the shell waiting. What a
-- command does outside the shell is its constructor.
pub mod Line
pub mod Session
pub mod Shown
pub mod Echo
pub mod Fetch
pub mod Refines
use relics.Prelude.{
  ℕ, zero, suc, ◌+◌, ◌-◌, ◌*◌, Bool, true, false, ◌&&◌, ◌||◌, ◌==◌, ltb, leb, if◌then◌else◌, Option,
  none, some, List, [], ◌∷◌, Memory, write, get_elem?,
}
use mathlib.Core.Option
use relics.Prelude.Int.{ℤ, pos, negsuc}
use relics.String.{strncmp}

-- The calls that a line leads to.
pub data Command : Type 0 where
  fetchme : Command
  echo : Option (List ℕ) → Command
  enable_cursor : Command
  disable_cursor : Command
  cursor_usage : Command
  nothing : Command
  panic : Command
  millisleep : ℕ → Command
  unknown : Command

-- The buffer below 8192, and a string literal with its NUL from there on.
abbrev pub beside : Memory → List ℕ → Memory
beside buf literal a = if ltb a 8192 then buf a else Option.get_or (get_elem? literal (a - 8192)) 0

abbrev pub is_zero : ℤ → Bool
is_zero (pos n) = n == 0
is_zero (negsuc n) = false

-- `strncmp(command_buf, literal, n) == 0`
unfoldable pub starts_with : Memory → List ℕ → ℕ → Bool
starts_with buf literal n = is_zero (strncmp (beside buf literal) 0 8192 n)

-- The characters from index i on, up to a newline or a NUL.
unfoldable pub echo_builtin : (fuel i : ℕ) → Memory → Option (List ℕ)
echo_builtin zero i buf = none
echo_builtin (suc fuel) i buf =
    let rest = echo_builtin fuel (i + 1) buf in
    if buf i == 10 || buf i == 0 then some [] else Option.map (λ t. buf i ∷ t) rest

unfoldable pub cursor_builtin : Memory → Command
cursor_builtin buf =
    if buf 7 == 45
    then if buf 8 == b'e' then enable_cursor else if buf 8 == b'd' then disable_cursor else nothing
    else cursor_usage

unfoldable pub sleep_builtin : Memory → Command
sleep_builtin buf =
    if leb b'1' (buf 7) && leb (buf 7) b'9' then millisleep ((buf 7 - 0x30) * 1000) else nothing

-- The chain of comparisons.
unfoldable pub select : Memory → Command
select buf =
    if starts_with buf (b'f' ∷ b'e' ∷ b't' ∷ b'c' ∷ b'h' ∷ b'm' ∷ b'e' ∷ []) 7
    then fetchme
    else if starts_with buf (b'e' ∷ b'c' ∷ b'h' ∷ b'o' ∷ 32 ∷ []) 5
    then echo (echo_builtin 4091 5 buf)
    else if starts_with buf (b'c' ∷ b'u' ∷ b'r' ∷ b's' ∷ b'o' ∷ b'r' ∷ []) 6
    then cursor_builtin buf
    else if starts_with buf (b'p' ∷ b'a' ∷ b'n' ∷ b'i' ∷ b'c' ∷ []) 5
    then panic
    else if starts_with buf (b's' ∷ b'l' ∷ b'e' ∷ b'e' ∷ b'p' ∷ []) 5
    then sleep_builtin buf
    else unknown

pub record Shell : Type 0 where
  pub command_buf : Memory
  pub i : ℕ
  pub ran : List Command

pub data ShellOutcome : Type 0 where
  waiting : Shell → ShellOutcome
  full : Shell → ShellOutcome
  panicked : Shell → ShellOutcome

-- `for (; i >= 0; i--) command_buf[i] = 0`
unfoldable pub clear_line : (i : ℕ) → Memory → Memory
clear_line zero buf = write buf 0 0
clear_line (suc i) buf = clear_line i (write buf (suc i) 0)

-- A newline: the command runs, the line is cleared, and the loop's `i++` follows on -1.
abbrev pub run_line : Shell → Shell
run_line s = record {
  command_buf = clear_line s.i s.command_buf;
  i = 0;
  ran = select s.command_buf ∷ s.ran;
}

abbrev pub is_panic : Command → Bool
is_panic panic = true
is_panic _ = false

-- The loop of `relics_shell`, up to a command that does not return or the end of the buffer.
unfoldable pub shell_loop : List ℕ → Shell → ShellOutcome
shell_loop [] s = if ltb s.i 4096 then waiting s else full s
shell_loop (c ∷ input) s =
    let line = shell_loop input (run_line s) in
    let typed =
      shell_loop input (record s { command_buf = write s.command_buf s.i c; i = s.i + 1 }) in
    if ltb s.i 4096
    then if c == 10 then if is_panic (select s.command_buf) then panicked s else line else typed
    else full s
