-- ===== src/Vga/Pixels.antt =====
-- About `clear_pixel_vga_buffer` of root/orbit-kernel/util/vga.c.
use relics.Prelude.{
  ℕ, zero, suc, ◌+◌, ◌-◌, ◌*◌, ◌/◌, ◌%◌, ◌<◌, ◌≤◌, ◌≡◌, ◌⊎◌, inl, inr, ◌∙◌, ap, sym, refl, arith,
  u8, true, false, and-left, and-right, Bool, Bool-cases, leb, ltb, ◌&&◌, if◌then◌else◌, if-true,
  if-false, tests, eq→eqb, ne→eqb, ◌==◌, eqb→eq, Memory,
}
use relics.Vga.{pixel_vga, place_pixel, clear_column, clear_columns, clear_pixel_vga_buffer}

-- A cell that has the colour keeps it.
place_pixel-keeps :
    (x y color b : ℕ) (m : Memory) → m b ≡ u8 color → place_pixel x y color m b ≡ u8 color
unfolding place_pixel
place_pixel-keeps x y color b m h = elim (Bool-cases (b == pixel_vga + 320 * y + x)) [
  | inl e ↦ if-true _ _ e
  | inr e ↦ if-false _ _ e ∙ h
]

clear_column-keeps :
    (left y x color b : ℕ) (m : Memory)
    → m b ≡ u8 color
    → clear_column left y x color m b ≡ u8 color
unfolding clear_column
clear_column-keeps zero y x color b m h = h
clear_column-keeps (suc left) y x color b m h =
    clear_column-keeps left (y + 1) x color b (place_pixel x y color m)
      (place_pixel-keeps x y color b m h)

clear_columns-keeps :
    (left x color b : ℕ) (m : Memory) → m b ≡ u8 color → clear_columns left x color m b ≡ u8 color
unfolding clear_columns
clear_columns-keeps zero x color b m h = h
clear_columns-keeps (suc left) x color b m h =
    clear_columns-keeps left (x + 1) color b (clear_column 200 0 x color m)
      (clear_column-keeps 200 0 x color b m h)

clear_column-fills :
    (left y x color row : ℕ) (m : Memory)
    → y ≤ row
    → row < y + left
    → clear_column left y x color m (pixel_vga + 320 * row + x) ≡ u8 color
unfolding clear_column place_pixel
clear_column-fills zero y x color row m lo hi = absurd (omega arith)
clear_column-fills (suc left) y x color row m lo hi = elim (Bool-cases (row == y)) [
  | inl here ↦
      clear_column-keeps left (y + 1) x color (pixel_vga + 320 * row + x) (place_pixel x y color m)
        (if-true _ _
          (eq→eqb (pixel_vga + 320 * row + x) (pixel_vga + 320 * y + x) (omega (tests, here))))
  | inr later ↦
      clear_column-fills left (y + 1) x color row (place_pixel x y color m) (omega (tests, later))
        (omega arith)
]

clear_columns-fills :
    (left x color column row : ℕ) (m : Memory)
    → x ≤ column
    → column < x + left
    → row < 200
    → clear_columns left x color m (pixel_vga + 320 * row + column) ≡ u8 color
unfolding clear_columns
clear_columns-fills zero x color column row m lo hi h = absurd (omega arith)
clear_columns-fills (suc left) x color column row m lo hi h = elim (Bool-cases (column == x)) [
  | inl here ↦
      clear_columns-keeps left (x + 1) color (pixel_vga + 320 * row + column)
        (clear_column 200 0 x color m)
        (ap (λ c. clear_column 200 0 x color m (pixel_vga + 320 * row + c)) (eqb→eq column x here)
          ∙ clear_column-fills 200 0 x color row m (omega arith) (omega arith))
  | inr later ↦
      clear_columns-fills left (x + 1) color column row (clear_column 200 0 x color m)
        (omega (tests, later)) (omega arith) h
]

-- Outside the buffer.
abbrev pub Outside : ℕ → Type 0
Outside b = (b < pixel_vga) ⊎ (pixel_vga + 64000 ≤ b)

clear_column-frame :
    (left y x color b : ℕ) (m : Memory)
    → x < 320
    → y + left ≤ 200
    → Outside b
    → clear_column left y x color m b ≡ m b
unfolding clear_column place_pixel
clear_column-frame zero y x color b m hx hy o = refl
clear_column-frame (suc left) y x color b m hx hy o =
    clear_column-frame left (y + 1) x color b (place_pixel x y color m) hx (omega arith) o
    ∙ if-false _ _ (ne→eqb b (pixel_vga + 320 * y + x) (ground arith))

clear_columns-frame :
    (left x color b : ℕ) (m : Memory)
    → x + left ≤ 320
    → Outside b
    → clear_columns left x color m b ≡ m b
unfolding clear_columns
clear_columns-frame zero x color b m hx o = refl
clear_columns-frame (suc left) x color b m hx o =
    clear_columns-frame left (x + 1) color b (clear_column 200 0 x color m) (omega arith) o
    ∙ clear_column-frame 200 0 x color b m (omega arith) (omega arith) o

-- Whether an address is one of the 64000 bytes of the screen.
abbrev pub on_screen : ℕ → Bool
on_screen b = leb pixel_vga b && ltb b (pixel_vga + 64000)

-- Clearing the pixel screen gives every one of its 64000 bytes, from 0xA0000 on, the colour cut to
-- a byte, and changes no other byte of the memory.
pub clear_pixel_vga_buffer-fills :
    (color b : ℕ) (m : Memory)
    → clear_pixel_vga_buffer color m b ≡ (if on_screen b then u8 color else m b)
unfolding clear_pixel_vga_buffer
clear_pixel_vga_buffer-fills color b m = elim (Bool-cases (on_screen b)) [
  | inl inside ↦
      let at = b - pixel_vga in
      let lo : leb pixel_vga b ≡ true = and-left (leb pixel_vga b) _ inside in
      let hi : ltb b (pixel_vga + 64000) ≡ true = and-right (leb pixel_vga b) _ inside in
      let place : b ≡ pixel_vga + 320 * (at / 320) + at % 320 = omega (tests, lo, hi) in
      ap (clear_columns 320 0 color m) place
      ∙ clear_columns-fills 320 0 color (at % 320) (at / 320) m (omega arith) (omega arith)
          (omega (tests, lo, hi))
      ∙ sym (if-true (u8 color) (m b) inside)
  | inr outside ↦
      clear_columns-frame 320 0 color b m (omega arith)
        (beyond (Bool-cases (leb pixel_vga b)) outside)
      ∙ sym (if-false (u8 color) (m b) outside)
]
  where
    beyond : (leb pixel_vga b ≡ true) ⊎ (leb pixel_vga b ≡ false) → on_screen b ≡ false → Outside b
    beyond (inl above) h =
        inr (omega (tests, ap (λ t. t && ltb b (pixel_vga + 64000)) (sym above) ∙ h))
    beyond (inr below) h = inl (omega (tests, below))
