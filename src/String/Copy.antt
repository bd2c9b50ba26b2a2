-- ===== src/String/Copy.antt =====
-- About the loops of `memcpy`, `memset`, `strcpy` and `kernel_strncpy`,
-- root/orbit-kernel/util/string.c.
use relics.Prelude.{
  ℕ, zero, suc, ◌+◌, ◌<◌, ◌≤◌, ◌≡◌, ◌⊎◌, ◌∙◌, inl, inr, refl, some, Memory, write, u8, ltb, ◌==◌,
  Bool-cases, eqb→eq, eqb→ne, ne→eqb, true, if◌then◌else◌, arith,
}
use relics.String.{
  memcpy_loop, memcpy, memset_loop, memset, strcpy_loop, strcpy, pad_loop, strncpy_loop,
  kernel_strncpy,
}
use relics.String.Length.{IsString}

-- x is none of the bytes from lo up to hi.
abbrev pub Beyond : ℕ → ℕ → ℕ → Type 0
Beyond x lo hi = (x < lo) ⊎ (hi ≤ x)

-- A forward copy reads every byte before it overwrites it.
abbrev pub Forward : ℕ → ℕ → ℕ → Type 0
Forward dest src n = (dest ≤ src) ⊎ (src + n ≤ dest)

memcpy_loop-Beyond :
    (left i dest src : ℕ) (m : Memory) (x : ℕ)
    → Beyond x (dest + i) (dest + i + left)
    → memcpy_loop left i dest src m x ≡ m x
unfolding memcpy_loop
memcpy_loop-Beyond zero i dest src m x b = refl
memcpy_loop-Beyond (suc left) i dest src m x b =
    memcpy_loop-Beyond left (i + 1) dest src _ x (omega arith) ∙ ground arith

memcpy_loop-copies :
    (left i dest src : ℕ) (m : Memory)
    → Forward dest src (i + left)
    → (j : ℕ) → i ≤ j
    → j < i + left
    → memcpy_loop left i dest src m (dest + j) ≡ m (src + j)
unfolding memcpy_loop
memcpy_loop-copies zero i dest src m f j lo hi = absurd (omega arith)
memcpy_loop-copies (suc left) i dest src m f j lo hi = elim (Bool-cases (i == j)) [
  | inl e ↦
      let here = eqb→eq i j e in
      memcpy_loop-Beyond left (i + 1) dest src _ (dest + j) (omega arith) ∙ ground arith
  | inr ne ↦
      let later = eqb→ne i j ne in
      memcpy_loop-copies left (i + 1) dest src _ (omega arith) j (omega arith) (omega arith)
      ∙ ground arith
]

-- `memcpy` returns `dest`; where the regions do not overlap, or dest lies below src, the n bytes at
-- dest are those that stood at src, and every byte beyond them is unchanged.
pub memcpy-cells :
    (dest src n : ℕ) (m : Memory)
    → Forward dest src n
    → ((memcpy dest src n m).0 ≡ dest)
      × ((j : ℕ) → j < n → (memcpy dest src n m).1 (dest + j) ≡ m (src + j))
      × ((x : ℕ) → Beyond x dest (dest + n) → (memcpy dest src n m).1 x ≡ m x)
unfolding memcpy
memcpy-cells dest src n m f = (
  refl,
  λ j h. memcpy_loop-copies n 0 dest src m (omega arith) j (omega arith) (omega arith),
  λ x b. memcpy_loop-Beyond n 0 dest src m x (omega arith),
)

memset_loop_lem :
    (left i s c : ℕ) (m : Memory) (x : ℕ)
    → memset_loop left i s c m x
      ≡ (if ltb x (s + i) then m x else if ltb x (s + i + left) then u8 c else m x)
unfolding memset_loop
memset_loop_lem zero i s c m x = ground arith
memset_loop_lem (suc left) i s c m x = memset_loop_lem left (i + 1) s c _ x ∙ ground arith

-- `memset` returns s and fills exactly the n bytes at s with the low byte of c.
pub memset-cells :
    (s c n : ℕ) (m : Memory)
    → ((memset s c n m).0 ≡ s)
      × ((j : ℕ) → j < n → (memset s c n m).1 (s + j) ≡ u8 c)
      × ((x : ℕ) → Beyond x s (s + n) → (memset s c n m).1 x ≡ m x)
unfolding memset
memset-cells s c n m = (
  refl,
  λ j h. memset_loop_lem n 0 s c m (s + j) ∙ ground arith,
  λ x b. memset_loop_lem n 0 s c m x ∙ ground arith,
)

-- The n bytes at dest and the string of n characters at src, with its NUL, do not overlap.
abbrev pub NoOverlap : ℕ → ℕ → ℕ → ℕ → Type 0
NoOverlap dest n src k = (dest + n ≤ src) ⊎ (src + k < dest)

IsString-write :
    (m : Memory) (s k a v : ℕ) → (a < s) ⊎ (s + k < a) → IsString m s k → IsString (write m a v) s k
IsString-write m s k a v out str = record {
  ends = ground (arith, str.ends);
  inside = λ i h. ground (arith, str.inside i h);
}

strcpy_loop_lem :
    (left i dest src n : ℕ) (m : Memory)
    → IsString m src n
    → i + left ≡ n
    → NoOverlap dest n src n
    → strcpy_loop (suc left) i dest src m ≡ some (memcpy_loop left i dest src m)
unfolding strcpy_loop memcpy_loop
strcpy_loop_lem zero i dest src n m str e disjoint =
    let here : i ≡ n = omega arith in rw (here, str.ends)
strcpy_loop_lem (suc left) i dest src n m str e disjoint =
    rw (ne→eqb (m (src + i)) 0 (str.inside i (omega arith))) (
      strcpy_loop_lem left (i + 1) dest src n _
        (IsString-write m src n (dest + i) (m (src + i)) (omega arith) str) (omega arith) disjoint)

-- `strcpy` of a string of n characters returns `dest` and copies the characters, but not the NUL:
-- every byte beyond the n characters at dest is unchanged, the one behind them included.
pub strcpy-cells :
    (dest src n : ℕ) (m : Memory)
    → IsString m src n
    → NoOverlap dest n src n
    → (m' : Memory) × (strcpy (suc n) dest src m ≡ some (dest, m'))
      × ((j : ℕ) → j < n → m' (dest + j) ≡ m (src + j))
      × ((x : ℕ) → Beyond x dest (dest + n) → m' x ≡ m x)
unfolding strcpy
strcpy-cells dest src n m str disjoint = (
  memcpy_loop n 0 dest src m,
  rw (strcpy_loop_lem n 0 dest src n m str (omega arith) disjoint, strcpy),
  λ j h. memcpy_loop-copies n 0 dest src m (omega arith) j (omega arith) (omega arith),
  λ x b. memcpy_loop-Beyond n 0 dest src m x (omega arith),
)

pad_loop_lem :
    (left i dest : ℕ) (m : Memory) (x : ℕ)
    → pad_loop left i dest m x
      ≡ (if ltb x (dest + i) then m x else if ltb x (dest + i + left) then 0 else m x)
unfolding pad_loop
pad_loop_lem zero i dest m x = ground arith
pad_loop_lem (suc left) i dest m x = pad_loop_lem left (i + 1) dest _ x ∙ ground arith

strncpy_loop-Beyond :
    (left i dest src : ℕ) (m : Memory) (x : ℕ)
    → Beyond x (dest + i) (dest + i + left)
    → strncpy_loop left i dest src m x ≡ m x
unfolding strncpy_loop
strncpy_loop-Beyond zero i dest src m x b = refl
strncpy_loop-Beyond (suc left) i dest src m x b = elim (Bool-cases (m (src + i) == 0)) [
  | inl nul ↦ rw nul (pad_loop_lem (suc left) i dest m x ∙ ground arith)
  | inr char ↦ rw char (strncpy_loop-Beyond left (i + 1) dest src _ x (omega arith) ∙ ground arith)
]

strncpy_loop-copies :
    (left i dest src k : ℕ) (m : Memory)
    → IsString m src k
    → NoOverlap dest (i + left) src k
    → i ≤ k
    → (j : ℕ) → i ≤ j
    → j < i + left
    → strncpy_loop left i dest src m (dest + j) ≡ (if ltb j k then m (src + j) else 0)
unfolding strncpy_loop
strncpy_loop-copies zero i dest src k m str disjoint le j lo hi = absurd (omega arith)
strncpy_loop-copies (suc left) i dest src k m str disjoint le j lo hi = elim (Bool-cases (i == k)) [
  | inl e ↦
      let here = eqb→eq i k e in
      let nul : (m (src + i) == 0) ≡ true = rw (here, str.ends) in
      rw nul (pad_loop_lem (suc left) i dest m (dest + j) ∙ ground arith)
  | inr ne ↦
      let later = eqb→ne i k ne in
      rw (ne→eqb (m (src + i)) 0 (str.inside i (omega arith))) (elim (Bool-cases (i == j)) [
        | inl e ↦
            let same = eqb→eq i j e in
            strncpy_loop-Beyond left (i + 1) dest src _ (dest + j) (omega arith) ∙ ground arith
        | inr n ↦
            let differ = eqb→ne i j n in
            strncpy_loop-copies left (i + 1) dest src k _
              (IsString-write m src k (dest + i) (m (src + i)) (omega arith) str) (omega arith)
              (omega arith) j (omega arith) (omega arith)
            ∙ ground arith
      ])
]

-- `kernel_strncpy` of a string of k characters writes exactly the n bytes at dest: the characters
-- as far as they go, and NUL in what is left. Every other byte is unchanged.
pub kernel_strncpy-cells :
    (dest src n k : ℕ) (m : Memory)
    → IsString m src k
    → NoOverlap dest n src k
    → ((kernel_strncpy dest src n m).0 ≡ dest)
      × ((j : ℕ)
          → j < n
          → (kernel_strncpy dest src n m).1 (dest + j) ≡ (if ltb j k then m (src + j) else 0))
      × ((x : ℕ) → Beyond x dest (dest + n) → (kernel_strncpy dest src n m).1 x ≡ m x)
unfolding kernel_strncpy
kernel_strncpy-cells dest src n k m str disjoint = (
  refl,
  λ j h.
      strncpy_loop-copies n 0 dest src k m str (omega arith) (omega arith) j (omega arith)
        (omega arith),
  λ x b. strncpy_loop-Beyond n 0 dest src m x (omega arith),
)
