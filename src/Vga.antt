-- ===== src/Vga.antt =====
-- root/orbit-kernel/util/vga.c: the screen of 320 by 200 pixels at 0xA0000, one byte for each. The
-- static variables are a record.
pub mod Pixels
use relics.Prelude.{ℕ, zero, suc, ◌+◌, ◌*◌, u8, Memory, write}

-- PIXEL_VGA, PIXEL_VGA_LENGTH and PIXEL_VGA_WIDTH.
abbrev pub pixel_vga : ℕ
pixel_vga = 0xA0000

abbrev pub pixel_vga_length : ℕ
pixel_vga_length = 200

abbrev pub pixel_vga_width : ℕ
pixel_vga_width = 320

-- GREEN and RED of `enum vga_color`.
abbrev pub green : ℕ
green = 2

abbrev pub red : ℕ
red = 4

-- `pixel_color` is GREEN at first.
pub record Vga : Type 0 where
  pub pixel_vga_buffer : ℕ
  pub pixel_color : ℕ
  pub memory : Memory

-- The callers' coordinates are not negative.
unfoldable pub place_pixel : (x y vga_color : ℕ) → Memory → Memory
place_pixel x y vga_color m = write m (pixel_vga + pixel_vga_width * y + x) (u8 vga_color)

unfoldable pub test_vga_color : Memory → Memory
unfolding place_pixel
test_vga_color m =
    place_pixel 0 4 red
      (place_pixel 0 3 red (place_pixel 0 2 red (place_pixel 0 1 red (place_pixel 0 0 red m))))

-- The loop over y, with the iterations to go.
unfoldable pub clear_column : (left y x vga_color : ℕ) → Memory → Memory
unfolding place_pixel
clear_column zero y x vga_color m = m
clear_column (suc left) y x vga_color m =
    clear_column left (y + 1) x vga_color (place_pixel x y vga_color m)

-- The loop over x.
unfoldable pub clear_columns : (left x vga_color : ℕ) → Memory → Memory
clear_columns zero x vga_color m = m
clear_columns (suc left) x vga_color m =
    clear_columns left (x + 1) vga_color (clear_column pixel_vga_length 0 x vga_color m)

unfoldable pub clear_pixel_vga_buffer : (vga_color : ℕ) → Memory → Memory
clear_pixel_vga_buffer vga_color m = clear_columns pixel_vga_width 0 vga_color m

unfoldable pub init_pixel_vga : (vga_color : ℕ) → Vga → Vga
init_pixel_vga vga_color v = record v {
  pixel_vga_buffer = pixel_vga;
  memory = clear_pixel_vga_buffer vga_color v.memory;
}

unfoldable pub reset_pixel_memory : Vga → Vga
reset_pixel_memory v = record v {
  pixel_vga_buffer = pixel_vga;
  memory = clear_pixel_vga_buffer v.pixel_color v.memory;
}
