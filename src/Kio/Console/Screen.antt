-- ===== src/Kio/Console/Screen.antt =====
-- The loops over the screen of root/orbit-kernel/util/kio.c: clearing and scrolling, cell by cell.
use relics.Prelude.{
  ℕ, zero, suc, ◌+◌, ◌-◌, ◌*◌, ◌/◌, ◌%◌, ◌^◌, ◌≤◌, ◌<◌, ◌≡◌, ◌⊎◌, inl, inr, refl, Memory, write, u8,
  u16, arith, tests, ◌==◌, if◌then◌else◌, ◌∙◌, ltb, false, Bool-cases,
}
use relics.Prelude.Bits.{bit_or-field}
use relics.Kio.Console.{
  vga_width, vga_length, vga_entry, fill_row, clear_rows, clear_vga_buffer, scroll_row, scroll_rows,
  scroll_cells,
}

-- The attribute byte and the character are the two bytes of a cell, and the colours the two
-- halves of the attribute byte, for colours of four bits and characters of eight.
pub vga_entry-fields :
    (ch fore_color back_color : ℕ)
    → ch < 256
    → fore_color < 16
    → back_color < 16
    → (vga_entry ch fore_color back_color % 256 ≡ ch)
      × (vga_entry ch fore_color back_color / 256 % 16 ≡ fore_color)
      × (vga_entry ch fore_color back_color / 4096 ≡ back_color)
unfolding vga_entry
vga_entry-fields ch f b hc hf hb =
    let e : u8 (b * 2 ^ 4) ≡ b * 2 ^ 4 = omega arith in
    let g : u8 (b * 2 ^ 4 + f) ≡ b * 2 ^ 4 + f = omega arith in
    let h : u16 ((b * 2 ^ 4 + f) * 2 ^ 8) ≡ (b * 2 ^ 4 + f) * 2 ^ 8 = omega arith in
    let k : u8 ch ≡ ch = omega arith in
    rw (e, bit_or-field 4 b f hf, g, h, k, bit_or-field 8 (b * 2 ^ 4 + f) ch hc)
      (omega arith, omega arith, omega arith)

fill_row-outside :
    (left at x value : ℕ) (b : Memory) (i : ℕ)
    → (i < at + x) ⊎ (at + x + left ≤ i)
    → fill_row left at x value b i ≡ b i
unfolding fill_row
fill_row-outside zero at x value b i h = refl
fill_row-outside (suc left) at x value b i h =
    fill_row-outside left at (x + 1) value (write b (at + x) value) i (ground arith) ∙ ground arith

fill_row-inside :
    (left at x value : ℕ) (b : Memory) (i : ℕ)
    → at + x ≤ i
    → i < at + x + left
    → fill_row left at x value b i ≡ value
unfolding fill_row
fill_row-inside zero at x value b i lo hi = absurd (omega arith)
fill_row-inside (suc left) at x value b i lo hi = elim (Bool-cases (i == at + x)) [
  | inl e ↦
      fill_row-outside left at (x + 1) value (write b (at + x) value) i (inl (omega (tests, e)))
      ∙ ground arith
  | inr e ↦
      fill_row-inside left at (x + 1) value (write b (at + x) value) i (omega (tests, e))
        (omega arith)
]

clear_rows-outside :
    (left y value : ℕ) (b : Memory) (i : ℕ)
    → (i < y * vga_width) ⊎ ((y + left) * vga_width ≤ i)
    → clear_rows left y value b i ≡ b i
unfolding clear_rows
clear_rows-outside zero y value b i h = refl
clear_rows-outside (suc left) y value b i h =
    clear_rows-outside left (y + 1) value (fill_row vga_width (y * vga_width) 0 value b) i
      (ground arith)
    ∙ fill_row-outside vga_width (y * vga_width) 0 value b i (ground arith)

clear_rows-inside :
    (left y value : ℕ) (b : Memory) (i : ℕ)
    → y * vga_width ≤ i
    → i < (y + left) * vga_width
    → clear_rows left y value b i ≡ value
unfolding clear_rows
clear_rows-inside zero y value b i lo hi = absurd (omega arith)
clear_rows-inside (suc left) y value b i lo hi =
    let b' = fill_row vga_width (y * vga_width) 0 value b in
    elim (Bool-cases (ltb i ((y + 1) * vga_width))) [
      | inl e ↦
          clear_rows-outside left (y + 1) value b' i (inl (omega (tests, e)))
          ∙ fill_row-inside vga_width (y * vga_width) 0 value b i (omega arith) (omega (tests, e))
      | inr e ↦ clear_rows-inside left (y + 1) value b' i (omega (tests, e)) (omega arith)
    ]

-- Clearing blanks the 2000 cells of the screen and writes no other cell.
pub clear_vga_buffer-blanks :
    (fore_color back_color : ℕ) (b : Memory) (i : ℕ)
    → clear_vga_buffer fore_color back_color b i
      ≡ (if ltb i (vga_length * vga_width) then vga_entry 0 fore_color back_color else b i)
unfolding clear_vga_buffer
clear_vga_buffer-blanks f g b i = elim (Bool-cases (ltb i (vga_length * vga_width))) [
  | inl e ↦
      clear_rows-inside vga_length 0 (vga_entry 0 f g) b i (omega arith) (omega (tests, e))
      ∙ ground arith
  | inr e ↦
      clear_rows-outside vga_length 0 (vga_entry 0 f g) b i (inr (omega (tests, e))) ∙ ground arith
]

scroll_row-outside :
    (left y x : ℕ) (b : Memory) (i : ℕ)
    → (i < (y - 1) * vga_width + x) ⊎ ((y - 1) * vga_width + x + left ≤ i)
    → scroll_row left y x b i ≡ b i
unfolding scroll_row
scroll_row-outside zero y x b i h = refl
scroll_row-outside (suc left) y x b i h =
    scroll_row-outside left y (x + 1) (write b ((y - 1) * vga_width + x) (b (y * vga_width + x))) i
      (ground arith)
    ∙ ground arith

scroll_row-inside :
    (left y x : ℕ) (b : Memory) (i : ℕ)
    → 1 ≤ y
    → x + left ≤ vga_width
    → (y - 1) * vga_width + x ≤ i
    → i < (y - 1) * vga_width + x + left
    → scroll_row left y x b i ≡ b (i + vga_width)
unfolding scroll_row
scroll_row-inside zero y x b i p q lo hi = absurd (omega arith)
scroll_row-inside (suc left) y x b i p q lo hi =
    let at = (y - 1) * vga_width + x in
    let b' = write b at (b (y * vga_width + x)) in
    elim (Bool-cases (i == at)) [
      | inl e ↦
          let k : y * vga_width + x ≡ i + vga_width = omega (tests, e) in
          scroll_row-outside left y (x + 1) b' i (inl (omega (tests, e))) ∙ rw (e, k) refl
      | inr e ↦
          let k : (i + vga_width == at) ≡ false = ground (arith, e) in
          scroll_row-inside left y (x + 1) b' i p (omega arith) (omega (tests, e)) (omega arith)
          ∙ rw (k) refl
    ]

scroll_rows-outside :
    (left y : ℕ) (b : Memory) (i : ℕ)
    → 1 ≤ y
    → (i < (y - 1) * vga_width) ⊎ ((y - 1 + left) * vga_width ≤ i)
    → scroll_rows left y b i ≡ b i
unfolding scroll_rows
scroll_rows-outside zero y b i p h = refl
scroll_rows-outside (suc left) y b i p h =
    scroll_rows-outside left (y + 1) (scroll_row vga_width y 0 b) i (omega arith) (ground arith)
    ∙ scroll_row-outside vga_width y 0 b i (ground arith)

scroll_rows-inside :
    (left y : ℕ) (b : Memory) (i : ℕ)
    → 1 ≤ y
    → (y - 1) * vga_width ≤ i
    → i < (y - 1 + left) * vga_width
    → scroll_rows left y b i ≡ b (i + vga_width)
unfolding scroll_rows
scroll_rows-inside zero y b i p lo hi = absurd (omega arith)
scroll_rows-inside (suc left) y b i p lo hi =
    let b' = scroll_row vga_width y 0 b in
    elim (Bool-cases (ltb i (y * vga_width))) [
      | inl e ↦
          scroll_rows-outside left (y + 1) b' i (omega arith) (inl (omega (tests, e)))
          ∙ scroll_row-inside vga_width y 0 b i p (omega arith) (omega arith) (omega (tests, e))
      | inr e ↦
          scroll_rows-inside left (y + 1) b' i (omega arith) (omega (tests, e)) (omega arith)
          ∙ scroll_row-outside vga_width y 0 b (i + vga_width) (inr (omega (tests, e)))
    ]

-- Scrolling in place moves each of the lower 24 rows up by one, blanks the last row and writes
-- no cell beyond the screen.
pub scroll_cells-moves :
    (fore_color back_color : ℕ) (b : Memory) (i : ℕ)
    → scroll_cells fore_color back_color b i ≡ (
        if ltb i 1920
        then b (i + 80)
        else if ltb i 2000
        then vga_entry 0 fore_color back_color
        else b i)
unfolding scroll_cells
scroll_cells-moves f g b i =
    let blank = vga_entry 0 f g in
    let b' = scroll_rows (vga_length - 1) 1 b in
    elim (Bool-cases (ltb i 1920)) [
      | inl e ↦
          fill_row-outside vga_width 1920 0 blank b' i (inl (omega (tests, e)))
          ∙ scroll_rows-inside (vga_length - 1) 1 b i (omega arith) (omega arith) (omega (tests, e))
          ∙ rw (e) refl
      | inr e ↦ elim (Bool-cases (ltb i 2000)) [
        | inl k ↦
            fill_row-inside vga_width 1920 0 blank b' i (omega (tests, e)) (omega (tests, k))
            ∙ rw (e, k) refl
        | inr k ↦
            fill_row-outside vga_width 1920 0 blank b' i (inr (omega (tests, k)))
            ∙ scroll_rows-outside (vga_length - 1) 1 b i (omega arith) (inr (omega (tests, k)))
            ∙ rw (e, k) refl
      ]
    ]
