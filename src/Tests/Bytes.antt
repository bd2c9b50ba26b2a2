-- ===== src/Tests/Bytes.antt =====
-- Concrete inputs for String and Math.
use relics.Prelude.{◌+◌, ◌%◌, ◌^◌, ◌≡◌, refl, some, arith, Memory, ◌==◌, if◌then◌else◌}
use mathlib.Core.Logic.{◌↔◌}
use relics.Prelude.Int.{ℤ, pos}
use relics.String.{strlen, strcmp}
use relics.String.Length.{IsString, strlen-IsString}
use relics.String.Compare.{SameBytes, strcmp-zero_iff}
use relics.Math.{ppowi, value}
use relics.Math.Power.{ppowi-pow}

-- "abc" at 0 and at every multiple of 4.
abbrev letters : Memory
letters a = if a % 4 == 3 then 0 else b'a' + a % 4

letters-IsString : IsString letters 8 3
letters-IsString = record { ends = refl; inside = λ i h. ground arith }

strlen-IsString_example : strlen 4 letters 8 ≡ some 3
strlen-IsString_example = strlen-IsString letters 8 3 letters-IsString (omega arith)

strcmp-zero_iff_example :
    (r : ℤ) × (strcmp 4 letters 8 13 ≡ some r) × ((r ≡ pos 0) ↔ SameBytes letters 8 13 3)
strcmp-zero_iff_example =
    strcmp-zero_iff letters (λ a. ground arith) 8 13 3 letters-IsString (omega arith)

ppowi-pow_example : ppowi 6 3 5 ≡ value (3 ^ 5 % 2 ^ 32)
ppowi-pow_example = ppowi-pow 6 3 5 (omega arith) (omega arith) (λ h. omega arith)
