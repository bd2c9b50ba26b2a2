-- ===== src/String/Copied.antt =====
-- The whole effect of the copying functions of root/orbit-kernel/util/string.c, byte by byte.
use relics.Prelude.{
  ℕ, suc, ◌+◌, ◌-◌, ◌<◌, ◌≡◌, ◌∙◌, ap, refl, inl, inr, some, Memory, u8, ltb, if◌then◌else◌,
  Bool-cases, tests,
}
use relics.String.{memcpy, memset, strcpy}
use relics.String.Length.{IsString}
use relics.String.Copy.{Beyond, Forward, NoOverlap, memcpy-cells, memset-cells, strcpy-cells}

-- The memory m with n bytes at dest replaced.
abbrev pub replaced : (dest n : ℕ) (bytes : ℕ → ℕ) → Memory → Memory
replaced dest n bytes m x =
    if ltb x dest then m x else if ltb x (dest + n) then bytes (x - dest) else m x

cells-replaced :
    (dest n : ℕ) (bytes : ℕ → ℕ) (m m' : Memory)
    → ((j : ℕ) → j < n → m' (dest + j) ≡ bytes j)
    → ((x : ℕ) → Beyond x dest (dest + n) → m' x ≡ m x)
    → (x : ℕ) → m' x ≡ replaced dest n bytes m x
cells-replaced dest n bytes m m' inside beyond x = elim (Bool-cases (ltb x dest)) [
  | inl e ↦ beyond x (omega (tests, e)) ∙ rw (e) refl
  | inr e ↦ elim (Bool-cases (ltb x (dest + n))) [
    | inl k ↦ ap m' (omega (tests, e)) ∙ inside (x - dest) (omega (tests, e, k)) ∙ rw (e, k) refl
    | inr k ↦ beyond x (omega (tests, k)) ∙ rw (e, k) refl
  ]
]

-- `memcpy` returns `dest`; where the regions do not overlap, or dest lies below src, the n bytes at
-- dest are those that stood at src, and every byte beyond them is unchanged.
pub memcpy-copies :
    (dest src n : ℕ) (m : Memory) (x : ℕ)
    → Forward dest src n
    → ((memcpy dest src n m).0 ≡ dest)
      × ((memcpy dest src n m).1 x ≡ replaced dest n (λ j. m (src + j)) m x)
memcpy-copies dest src n m x f =
    let c = memcpy-cells dest src n m f in (c.0, cells-replaced dest n _ m _ c.1 c.2 x)

-- `memset` returns s and fills exactly the n bytes at s with the low byte of c.
pub memset-fills :
    (s c n : ℕ) (m : Memory) (x : ℕ)
    → ((memset s c n m).0 ≡ s) × ((memset s c n m).1 x ≡ replaced s n (λ j. u8 c) m x)
memset-fills s c n m x = let k = memset-cells s c n m in (k.0, cells-replaced s n _ m _ k.1 k.2 x)

-- `strcpy` of a string of n characters returns `dest` and copies the characters, but not the NUL:
-- every byte beyond the n characters at dest is unchanged, the one behind them included.
pub strcpy-copies :
    (dest src n : ℕ) (m : Memory) (x : ℕ)
    → IsString m src n
    → NoOverlap dest n src n
    → (m' : Memory) × (strcpy (suc n) dest src m ≡ some (dest, m'))
      × (m' x ≡ replaced dest n (λ j. m (src + j)) m x)
strcpy-copies dest src n m x str disjoint =
    let c = strcpy-cells dest src n m str disjoint in
    (c.0, c.1, cells-replaced dest n _ m _ c.2 c.3 x)
