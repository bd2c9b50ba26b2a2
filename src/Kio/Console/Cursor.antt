-- ===== src/Kio/Console/Cursor.antt =====
-- The text position and the hardware cursor of root/orbit-kernel/util/kio.c.
use Prim.Native.Nat.{bit_and}
use relics.Prelude.{
  ltb, ℕ, zero, suc, ◌+◌, ◌-◌, ◌*◌, ◌/◌, ◌%◌, ◌^◌, ◌≤◌, ◌<◌, ◌≡◌, ◌≢◌, ◌⊎◌, inl, inr, refl, Bool,
  true, false, Memory, write, u16, arith, tests, leb, ◌==◌, if◌then◌else◌, ◌∙◌, ap, sym, Bool-cases,
  List, [], ◌∷◌, Option, none, some, length, get_elem?, All, ne→eqb, eq→eqb, eqb→eq, eqb→ne,
}
use mathlib.Core.Path.{subst}
use mathlib.Core.Option
use relics.Prelude.Bits.{bit_and-mask}
use relics.Kio.Console.{
  Console, vga_width, vga_length, outb, update_cursor, vga_entry, scroll_vga_buffer, move_cursor,
  print_new_line, put_cell, end_line, print_char, print_string,
}

-- The index is on the screen, and the line counter is one more than its row.
abbrev pub Synced : Console → Type 0
Synced c = (c.vga_index < 2000) × (c.next_line_index ≡ c.vga_index / 80 + 1)

-- The cursor's position, as the last four port writes set it.
abbrev pub cursor : List (ℕ × ℕ) → Option ℕ
cursor ((p, hi) ∷ (q, high) ∷ (r, lo) ∷ (s, low) ∷ _) =
    if p == 0x3D5
    then if q == 0x3D4
      then if r == 0x3D5
        then if s == 0x3D4
          then if high == 0x0E then if low == 0x0F then some (hi * 256 + lo) else none else none
          else none
        else none
      else none
    else none
cursor _ = none

byte : (a : ℕ) → bit_and a 0xFF ≡ a % 256
byte a = bit_and-mask 8 a

move_cursor-cursor : (c : Console) → Synced c → cursor (move_cursor c).ports ≡ some c.vga_index
unfolding move_cursor update_cursor outb
move_cursor-cursor c h =
    let i = c.vga_index in
    let e : u16 (u16 (i / 80 + 1 + 2 ^ 16 - 1) * 80 + i % 80) ≡ i = omega (arith, h.0) in
    rw (h.1, e, byte (i / 2 ^ 8), byte i) (ap some (omega (arith, h.0)))

move_cursor-index : (c : Console) → c.vga_index ≡ (move_cursor c).vga_index
unfolding move_cursor update_cursor outb
move_cursor-index c = refl

move_cursor-Synced : (c : Console) → Synced c → Synced (move_cursor c)
unfolding move_cursor update_cursor outb
move_cursor-Synced c h = h

-- The state before the cursor is moved.
next_line : Bool → Console → Console
unfolding scroll_vga_buffer
next_line full c = if full then scroll_vga_buffer c else record c {
  vga_index = u16 (vga_width * c.next_line_index);
  next_line_index = u16 (c.next_line_index + 1);
}

next_line-Synced :
    (full : Bool) (c : Console)
    → leb vga_length c.next_line_index ≡ full
    → Synced c
    → Synced (next_line full c)
unfolding next_line scroll_vga_buffer
next_line-Synced true c e h = (omega arith, omega (tests, e, h.0, h.1))
next_line-Synced false c e h = (omega (tests, e, h.0, h.1), omega (tests, e, h.0, h.1))

print_new_line-next_line :
    (c : Console) → print_new_line c ≡ move_cursor (next_line (leb vga_length c.next_line_index) c)
unfolding print_new_line next_line
print_new_line-next_line c = refl

-- A character that is printed as it is.
abbrev pub Plain : ℕ → Type 0
Plain ch = (ch ≢ 0) × (ch ≢ 8) × (ch ≢ 9) × (ch ≢ 10)

-- The state after a plain character, before the cursor is moved.
after_cell : ℕ → Console → Console
unfolding put_cell end_line
after_cell ch c =
    end_line (record (put_cell ch c.vga_index c) { vga_index = u16 (c.vga_index + 1) })

-- The chain of tests of `print_char`.
module _ (p q r s : Bool) (v w x y z : Console) where
  chain : Console
  chain = if p then v else if q then w else if r then x else if s then y else z

  chain-last : p ≡ false → q ≡ false → r ≡ false → s ≡ false → chain ≡ z
  unfolding chain
  chain-last hp hq hr hs = rw (hp, hq, hr, hs) refl

  chain-third : p ≡ false → q ≡ false → r ≡ true → chain ≡ x
  unfolding chain
  chain-third hp hq hr = rw (hp, hq, hr) refl

print_char-Plain :
    (ch : ℕ) (c : Console) → Plain ch → print_char ch c ≡ move_cursor (after_cell ch c)
unfolding print_char after_cell chain
print_char-Plain ch c h =
    chain-last (ch == 0) (ch == 8) (ch == 10) (ch == 9) c _ _ _ _ (ne→eqb ch 0 h.0)
      (ne→eqb ch 8 h.1) (ne→eqb ch 10 h.3) (ne→eqb ch 9 h.2)

print_char-line : (ch : ℕ) (c : Console) → ch ≡ 10 → print_char ch c ≡ print_new_line c
unfolding print_char chain
print_char-line ch c e =
    chain-third (ch == 0) (ch == 8) (ch == 10) (ch == 9) c _ _ _ _ (ne→eqb ch 0 (omega (arith, e)))
      (ne→eqb ch 8 (omega (arith, e))) (eq→eqb ch 10 e)

after_cell-state :
    (ch : ℕ) (c : Console)
    → Synced c
    → c.vga_index + 1 < 2000
    → ((after_cell ch c).vga_buffer
        ≡ write c.vga_buffer c.vga_index (vga_entry ch c.g_fore_color c.g_back_color))
      × ((after_cell ch c).vga_index ≡ c.vga_index + 1)
      × ((after_cell ch c).next_line_index ≡ (c.vga_index + 1) / 80 + 1)
      × ((after_cell ch c).g_fore_color ≡ c.g_fore_color)
      × ((after_cell ch c).g_back_color ≡ c.g_back_color)
unfolding after_cell end_line put_cell vga_entry
after_cell-state ch c h lt =
    let u : u16 (c.vga_index + 1) ≡ c.vga_index + 1 = omega (arith, lt) in
    elim (Bool-cases (u16 (c.vga_index + 1) % 80 == 0)) [
      | inl e ↦ rw (e) (refl, u, omega (tests, e, u, h.0, h.1, lt), refl, refl)
      | inr e ↦ rw (e) (refl, u, omega (tests, e, u, h.0, h.1, lt), refl, refl)
    ]

after_cell-Synced :
    (ch : ℕ) (c : Console) → Synced c → c.vga_index + 1 < 2000 → Synced (after_cell ch c)
after_cell-Synced ch c h lt =
    let s = after_cell-state ch c h lt in
    (omega (arith, s.1, lt), s.2 ∙ ap (λ i. i / 80 + 1) (sym s.1))

-- On a console in step, a character that is not NUL, backspace or tab, where it does not fill the
-- last cell of the screen, keeps the index and the line counter in step, and leaves the hardware
-- cursor at the index.
pub print_char-Synced :
    (ch : ℕ) (c : Console)
    → Synced c
    → ch ≢ 0
    → ch ≢ 8
    → ch ≢ 9
    → (ch ≡ 10) ⊎ (c.vga_index + 1 < 2000)
    → Synced (print_char ch c) × (cursor (print_char ch c).ports ≡ some (print_char ch c).vga_index)
print_char-Synced ch c h nul back tab room = elim (Bool-cases (ch == 10)) [
  | inl e ↦
      let n = next_line (leb vga_length c.next_line_index) c in
      let k : Synced n = next_line-Synced (leb vga_length c.next_line_index) c refl h in
      subst (λ (d : Console). Synced d × (cursor d.ports ≡ some d.vga_index))
        (sym (print_char-line ch c (eqb→eq ch 10 e) ∙ print_new_line-next_line c)) (moved n k)
  | inr e ↦
      let lt : c.vga_index + 1 < 2000 = elim room [
        | inl l ↦ absurd (eqb→ne ch 10 e l)
        | inr l ↦ l
      ] in
      subst (λ (d : Console). Synced d × (cursor d.ports ≡ some d.vga_index))
        (sym (print_char-Plain ch c (nul, back, tab, eqb→ne ch 10 e)))
        (moved (after_cell ch c) (after_cell-Synced ch c h lt))
]
  where
    moved :
        (n : Console)
        → Synced n
        → Synced (move_cursor n) × (cursor (move_cursor n).ports ≡ some (move_cursor n).vga_index)
    moved n k = (move_cursor-Synced n k, move_cursor-cursor n k ∙ ap some (move_cursor-index n))

-- What a plain character does to each part of the state.
print_char-state :
    (ch : ℕ) (c : Console)
    → Plain ch
    → Synced c
    → c.vga_index + 1 < 2000
    → ((print_char ch c).vga_buffer
        ≡ write c.vga_buffer c.vga_index (vga_entry ch c.g_fore_color c.g_back_color))
      × ((print_char ch c).vga_index ≡ c.vga_index + 1)
      × ((print_char ch c).g_fore_color ≡ c.g_fore_color)
      × ((print_char ch c).g_back_color ≡ c.g_back_color)
unfolding move_cursor update_cursor outb
print_char-state ch c p h lt =
    let s = after_cell-state ch c h lt in
    let e = print_char-Plain ch c p in
    (
      ap (λ (d : Console). d.vga_buffer) e ∙ s.0,
      ap (λ (d : Console). d.vga_index) e ∙ s.1,
      ap (λ (d : Console). d.g_fore_color) e ∙ s.3,
      ap (λ (d : Console). d.g_back_color) e ∙ s.4,
    )

-- The cells of a string, given by what a character puts into a cell.
abbrev pub Shows : (at : ℕ) (entry : ℕ → ℕ) (str : List ℕ) (before after : Memory) → Type 0
Shows at entry str before after =
    ((i ch : ℕ) → get_elem? str i ≡ some ch → after (at + i) ≡ entry ch)
    × ((j : ℕ) → (j < at) ⊎ (at + length str ≤ j) → after j ≡ before j)

Shows-suc :
    (at x : ℕ) (entry : ℕ → ℕ) (str : List ℕ) (before after : Memory)
    → Shows (at + 1) entry str (write before at (entry x)) after
    → Shows at entry (x ∷ str) before after
Shows-suc at x entry str before after h = (cell, λ j o. h.1 j (ground arith) ∙ ground arith)
  where
    cell : (i ch : ℕ) → get_elem? (x ∷ str) i ≡ some ch → after (at + i) ≡ entry ch
    cell zero ch e =
        ap after (omega arith)
        ∙ h.1 at (inl (omega arith))
        ∙ ground arith
        ∙ ap entry (ap (λ o. Option.get_or o 0) e)
    cell (suc i) ch e = ap after (omega arith) ∙ h.0 i ch e

-- The screen that shows a string from a cell on.
abbrev pub shown : (at : ℕ) (entry : ℕ → ℕ) (str : List ℕ) (before : Memory) → Memory
shown at entry str before i =
    if ltb i at
    then before i
    else Option.get_or (Option.map entry (get_elem? str (i - at))) (before i)

length-get_elem? : {A : Type 0} (xs : List A) (i : ℕ) → get_elem? xs i ≡ none → length xs ≤ i
length-get_elem? [] i e = omega arith
length-get_elem? (x ∷ xs) zero e = ground arith
length-get_elem? (x ∷ xs) (suc i) e = omega (arith, length-get_elem? xs i e)

Shows-shown :
    (at : ℕ) (entry : ℕ → ℕ) (str : List ℕ) (before after : Memory)
    → Shows at entry str before after
    → (i : ℕ) → after i ≡ shown at entry str before i
Shows-shown at entry str before after h i = elim (Bool-cases (ltb i at)) [
  | inl e ↦ h.1 i (inl (omega (tests, e))) ∙ rw (e) refl
  | inr e ↦ cell e (get_elem? str (i - at)) refl ∙ rw (e) refl
]
  where
    cell :
        ltb i at ≡ false
        → (o : Option ℕ) → get_elem? str (i - at) ≡ o
        → after i ≡ Option.get_or (Option.map entry o) (before i)
    cell e none p = h.1 i (inr (omega (tests, e, length-get_elem? str (i - at) p)))
    cell e (some ch) p = ap after (omega (tests, e)) ∙ h.0 (i - at) ch p

print_string-Shows :
    (str : List ℕ) (c : Console)
    → All Plain str
    → Synced c
    → c.vga_index + length str < 2000
    → Synced (print_string str c)
      × ((print_string str c).vga_index ≡ c.vga_index + length str)
      × Shows c.vga_index
          (λ ch. vga_entry ch c.g_fore_color c.g_back_color)
          str
          c.vga_buffer
          (print_string str c).vga_buffer
unfolding print_string
print_string-Shows [] c p h lt = (h, omega arith, (λ i ch e. ground arith, λ j h. refl))
print_string-Shows (x ∷ str) c p h lt =
    let d = print_char x c in
    let r : c.vga_index + 1 < 2000 = omega (arith, lt) in
    let s = print_char-state x c p.0 h r in
    let k = print_char-Synced x c h p.0.0 p.0.1 p.0.2 (inr r) in
    let rest = print_string-Shows str d p.1 k.0 (omega (arith, lt, s.1)) in
    let shows : Shows (c.vga_index + 1) (λ ch. vga_entry ch c.g_fore_color c.g_back_color) str
        (write c.vga_buffer c.vga_index (vga_entry x c.g_fore_color c.g_back_color))
        (print_string str d).vga_buffer =
      moved str _ (sym s.0) s.1 s.2 s.3 rest.2 in
    (rest.0, omega (arith, rest.1, s.1), Shows-suc c.vga_index x _ str _ _ shows)
  where
    moved :
        {at at' f f' b b' : ℕ} {before before' : Memory} (str : List ℕ) (after : Memory)
        → before' ≡ before
        → at ≡ at'
        → f ≡ f'
        → b ≡ b'
        → Shows at (λ ch. vga_entry ch f b) str before after
        → Shows at' (λ ch. vga_entry ch f' b') str before' after
    moved {at = at} {at' = at'} {f' = f'} {b = b} {b' = b'} {before = before} str after m i p q h =
        subst (λ (x : Memory). Shows at' (λ ch. vga_entry ch f' b') str x after) (sym m)
          (subst (λ (x : ℕ). Shows x (λ ch. vga_entry ch f' b') str before after) i
            (subst (λ (x : ℕ). Shows at (λ ch. vga_entry ch f' x) str before after) q
              (subst (λ (x : ℕ). Shows at (λ ch. vga_entry ch x b) str before after) p h)))

-- A string of plain characters that ends before the last cell stands on the screen from the index
-- on, in the current colours; no other cell changes, the index advances by the string's length and
-- stays in step with the line counter.
pub print_string-writes :
    (str : List ℕ) (c : Console) (i : ℕ)
    → All Plain str
    → Synced c
    → c.vga_index + length str < 2000
    → Synced (print_string str c)
      × ((print_string str c).vga_index ≡ c.vga_index + length str)
      × ((print_string str c).vga_buffer i
          ≡ shown c.vga_index (λ ch. vga_entry ch c.g_fore_color c.g_back_color) str c.vga_buffer i)
print_string-writes str c i p h lt =
    let s = print_string-Shows str c p h lt in (s.0, s.1, Shows-shown c.vga_index _ str _ _ s.2 i)
