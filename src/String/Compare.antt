-- ===== src/String/Compare.antt =====
-- About `memcmp` and `strcmp` of root/orbit-kernel/util/string.c.
use relics.Prelude.{
  ℕ, zero, suc, ◌+◌, ◌^◌, ◌<◌, ◌≤◌, ◌≡◌, inl, inr, refl, some, some, Memory, u8, ◌==◌, Bool-cases,
  eqb→eq, eqb→ne, eq→eqb, arith,
}
use mathlib.Core.Logic.{◌↔◌}
use relics.Prelude.Int.{ℤ, pos, sub_ℕ-zero}
use relics.String.{char_difference, memcmp_loop, memcmp, strcmp}
use relics.String.Length.{IsString, strlen-IsString}

-- Every cell of the memory holds a byte.
abbrev pub IsBytes : Memory → Type 0
IsBytes m = (a : ℕ) → m a < 256

-- The first n bytes at both addresses are equal.
abbrev pub SameBytes : Memory → ℕ → ℕ → ℕ → Type 0
SameBytes m s1 s2 n = (i : ℕ) → i < n → m (s1 + i) ≡ m (s2 + i)

char_difference-zero : (a b : ℕ) → a < 256 → b < 256 → char_difference a b ≡ pos 0 → a ≡ b
unfolding char_difference
char_difference-zero a b ha hb h = let e = sub_ℕ-zero (u8 (a + 128)) (u8 (b + 128)) h in omega arith

module _ (m : Memory) (bytes : IsBytes m) (s1 s2 : ℕ) where
  memcmp_loop_sound :
      (left i : ℕ)
      → memcmp_loop left i m s1 s2 ≡ pos 0
      → (j : ℕ) → i ≤ j
      → j < i + left
      → m (s1 + j) ≡ m (s2 + j)
  unfolding memcmp_loop
  memcmp_loop_sound zero i h j lo hi = absurd (omega arith)
  memcmp_loop_sound (suc left) i h j lo hi = elim (Bool-cases (m (s1 + i) == m (s2 + i))) [
    | inl same ↦
        let here = eqb→eq (m (s1 + i)) (m (s2 + i)) same in
        let rest = rw same at h in
        elim (Bool-cases (i == j)) [
          | inl e ↦ rw (← eqb→eq i j e) here
          | inr ne ↦
              memcmp_loop_sound left (i + 1) rest j (omega (arith, eqb→ne i j ne)) (omega arith)
        ]
    | inr differ ↦
        let h' = rw differ at h in
        absurd (
          eqb→ne (m (s1 + i)) (m (s2 + i)) differ
            (char_difference-zero (m (s1 + i)) (m (s2 + i)) (bytes (s1 + i)) (bytes (s2 + i)) h'))
  ]

  memcmp_loop_complete :
      (left i : ℕ)
      → ((j : ℕ) → i ≤ j → j < i + left → m (s1 + j) ≡ m (s2 + j))
      → memcmp_loop left i m s1 s2 ≡ pos 0
  unfolding memcmp_loop
  memcmp_loop_complete zero i h = refl
  memcmp_loop_complete (suc left) i h =
      rw (eq→eqb (m (s1 + i)) (m (s2 + i)) (h i (omega arith) (omega arith)))
        (memcmp_loop_complete left (i + 1) (λ j lo hi. h j (omega arith) (omega arith)))

  -- `memcmp` returns 0 exactly when the first n bytes are equal.
  pub memcmp-zero_iff : (n : ℕ) → (memcmp m s1 s2 n ≡ pos 0) ↔ SameBytes m s1 s2 n
  unfolding memcmp
  memcmp-zero_iff n = (
    λ h j hi. memcmp_loop_sound n 0 h j (omega arith) (omega arith),
    λ h. memcmp_loop_complete n 0 (λ j lo hi. h j (omega arith)),
  )

  -- `strcmp` of a string of n characters, below 2 ^ 32 of them, returns; the result is 0 exactly
  -- when the n characters stand at the start of the second string, which may be longer.
  pub strcmp-zero_iff :
      (n : ℕ)
      → IsString m s1 n
      → n < 2 ^ 32
      → (r : ℤ) × (strcmp (suc n) m s1 s2 ≡ some r) × ((r ≡ pos 0) ↔ SameBytes m s1 s2 n)
  unfolding strcmp
  strcmp-zero_iff n str h =
      (memcmp m s1 s2 n, rw (strlen-IsString m s1 n str h, strcmp), memcmp-zero_iff n)
