-- ===== src/Kio/Console.antt =====
-- The text screen of root/orbit-kernel/util/kio.c: the static variables are a record, the video
-- memory is a memory of 16-bit cells, and `outb` records its port and value, the latest in front.
pub mod Screen
pub mod Cursor
use Prim.Native.Nat.{bit_and, bit_or}
use relics.Prelude.{
  ℕ, zero, suc, ◌+◌, ◌-◌, ◌*◌, ◌/◌, ◌%◌, ◌^◌, List, [], ◌∷◌, Memory, write, u8, u16, leb, ◌==◌,
  if◌then◌else◌,
}

pub record Console : Type 0 where
  pub vga_buffer : Memory
  pub vga_index : ℕ
  pub next_line_index : ℕ
  pub g_fore_color : ℕ
  pub g_back_color : ℕ
  pub ports : List (ℕ × ℕ)

-- VGA_LENGTH, VGA_WIDTH and KIO_TABSIZE.
abbrev pub vga_length : ℕ
vga_length = 25

abbrev pub vga_width : ℕ
vga_width = 80

abbrev pub kio_tabsize : ℕ
kio_tabsize = 4

unfoldable pub outb : ℕ → ℕ → Console → Console
outb port value c = record c { ports = (port, value) ∷ c.ports }

unfoldable pub update_cursor : (x y : ℕ) → Console → Console
unfolding outb
update_cursor x y c =
    let pos = u16 (y * vga_width + x) in
    outb 0x3D5 (u8 (bit_and (pos / 2 ^ 8) 0xFF))
      (outb 0x3D4 0x0E (outb 0x3D5 (u8 (bit_and pos 0xFF)) (outb 0x3D4 0x0F c)))

-- `inb` is a device: what it returns the first and the second time is given.
unfoldable pub enable_cursor : (cursor_start cursor_end first second : ℕ) → Console → Console
unfolding outb
enable_cursor cursor_start cursor_end first second c =
    outb 0x3D5 (u8 (bit_or (bit_and second 0xE0) cursor_end)) (
      outb 0x3D4 0x0B
        (outb 0x3D5 (u8 (bit_or (bit_and first 0xC0) cursor_start)) (outb 0x3D4 0x0A c)))

unfoldable pub disable_cursor : Console → Console
unfolding outb
disable_cursor c = outb 0x3D5 0x20 (outb 0x3D4 0x0A c)

unfoldable pub vga_entry : (ch fore_color back_color : ℕ) → ℕ
vga_entry ch fore_color back_color =
    let ah = u8 (bit_or (u8 (back_color * 2 ^ 4)) fore_color) in
    u16 (bit_or (u16 (ah * 2 ^ 8)) (u8 ch))

-- `for (int x = ...; x < VGA_WIDTH; x++) buffer[at + x] = value`, with the iterations to go.
unfoldable pub fill_row : (left at x value : ℕ) → Memory → Memory
fill_row zero at x value b = b
fill_row (suc left) at x value b = fill_row left at (x + 1) value (write b (at + x) value)

unfoldable pub clear_rows : (left y value : ℕ) → Memory → Memory
unfolding fill_row
clear_rows zero y value b = b
clear_rows (suc left) y value b =
    clear_rows left (y + 1) value (fill_row vga_width (y * vga_width) 0 value b)

unfoldable pub clear_vga_buffer : (fore_color back_color : ℕ) → Memory → Memory
unfolding clear_rows vga_entry
clear_vga_buffer fore_color back_color = clear_rows vga_length 0 (vga_entry 0 fore_color back_color)

-- One row up: the loop over x.
unfoldable pub scroll_row : (left y x : ℕ) → Memory → Memory
scroll_row zero y x b = b
scroll_row (suc left) y x b =
    scroll_row left y (x + 1) (write b ((y - 1) * vga_width + x) (b (y * vga_width + x)))

unfoldable pub scroll_rows : (left y : ℕ) → Memory → Memory
unfolding scroll_row
scroll_rows zero y b = b
scroll_rows (suc left) y b = scroll_rows left (y + 1) (scroll_row vga_width y 0 b)

unfoldable pub scroll_cells : (fore_color back_color : ℕ) → Memory → Memory
unfolding scroll_rows fill_row vga_entry
scroll_cells fore_color back_color b =
    fill_row vga_width ((vga_length - 1) * vga_width) 0 (vga_entry 0 fore_color back_color)
      (scroll_rows (vga_length - 1) 1 b)

unfoldable pub scroll_vga_buffer : Console → Console
unfolding scroll_cells
scroll_vga_buffer c = record c {
  vga_buffer = scroll_cells c.g_fore_color c.g_back_color c.vga_buffer;
  vga_index = (vga_length - 1) * vga_width;
}

unfoldable pub reset_video_memory : Console → Console
unfolding clear_vga_buffer
reset_video_memory c = record c {
  vga_buffer = clear_vga_buffer c.g_fore_color c.g_back_color c.vga_buffer;
  vga_index = 0;
  next_line_index = 1;
}

-- The two indices keep their values.
unfoldable pub init_vga : (fore_color back_color : ℕ) → Console → Console
unfolding clear_vga_buffer
init_vga fore_color back_color c = record c {
  vga_buffer = clear_vga_buffer fore_color back_color c.vga_buffer;
  g_fore_color = fore_color;
  g_back_color = back_color;
}

-- `update_cursor(vga_index % VGA_WIDTH, next_line_index - 1)`, whose second argument is 16 bits.
unfoldable pub move_cursor : Console → Console
unfolding update_cursor
move_cursor c = update_cursor (c.vga_index % vga_width) (u16 (c.next_line_index + 2 ^ 16 - 1)) c

unfoldable pub print_new_line : Console → Console
unfolding move_cursor scroll_vga_buffer
print_new_line c = move_cursor (
    if leb vga_length c.next_line_index then scroll_vga_buffer c else record c {
      vga_index = u16 (vga_width * c.next_line_index);
      next_line_index = u16 (c.next_line_index + 1);
    })

-- A character goes to the cell at an index.
unfoldable pub put_cell : (ch at : ℕ) → Console → Console
unfolding vga_entry
put_cell ch at c = record c {
  vga_buffer = write c.vga_buffer at (vga_entry ch c.g_fore_color c.g_back_color);
}

-- `if (vga_index % VGA_WIDTH == 0) next_line_index++`
unfoldable pub end_line : Console → Console
end_line c =
    if c.vga_index % vga_width == 0
    then record c { next_line_index = u16 (c.next_line_index + 1) }
    else c

-- A backspace blanks the cell before.
unfoldable pub back_space : Console → Console
unfolding move_cursor put_cell
back_space c =
    let index = u16 (c.vga_index + 2 ^ 16 - 1) in
    move_cursor (put_cell b' ' index (record c { vga_index = index }))

unfoldable pub print_char : (ch : ℕ) → Console → Console
unfolding move_cursor print_new_line put_cell end_line back_space
print_char ch c =
    if ch == 0
    then c
    else if ch == 8
    then back_space c
    else if ch == 10
    then print_new_line c
    else if ch == 9
    then move_cursor (record c { vga_index = u16 (c.vga_index + kio_tabsize) })
    else move_cursor
        (end_line (record (put_cell ch c.vga_index c) { vga_index = u16 (c.vga_index + 1) }))

-- A string is the list of its characters before the NUL.
unfoldable pub print_string : List ℕ → Console → Console
unfolding print_char
print_string [] c = c
print_string (ch ∷ str) c = print_string str (print_char ch c)
