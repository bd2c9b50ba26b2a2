-- ===== src/Cpu/Features.antt =====
-- About `cpuflags` and `remaining_features` of root/orbit-kernel/util/cpu.c.
use Prim.Native.Nat.{bit_and}
use relics.Prelude.{
  codes, ℕ, ◌≡◌, inl, inr, ◌∙◌, ap, sym, refl, Bool-cases, ◌==◌, if◌then◌else◌, if-true, if-false,
  Option, none, some, List, [], ◌∷◌, ◌++◌,
}
use relics.Kio.Format.Text.{append_assoc, append-nil}
use relics.Kio.Format.Pieces.{Piece, plain, characters, are_pieces_sound}
use relics.Kio.Log.{Pointer, printk}
use relics.Kio.Log.Time.{stamp, log_printk-pieces, printk-pieces}
use relics.Cpu.{print_features, print_tables, remaining_features}
use relics.Cpu.Table.{Feature, cpuidstruct_ecx, cpuidstruct_edx}

-- The names of the features whose bits a register has, each with a space behind it.
abbrev pub names : (register : ℕ) → List Feature → List ℕ
names register [] = []
names register ((feature, feature_string) ∷ table) =
    let rest = names register table in
    if bit_and register feature == 0 then rest else feature_string ++ 32 ∷ rest

one_name : List ℕ → List Piece
one_name s = characters s ∷ plain (32 ∷ []) ∷ []

print_features-names :
    (register : ℕ) (table : List Feature) (printed : List ℕ)
    → print_features register table printed ≡ some (printed ++ names register table)
unfolding print_features one_name
print_features-names register [] printed = ap some (sym (append-nil printed))
print_features-names register ((feature, s) ∷ table) printed =
    let go : Option (List ℕ) → Option (List ℕ) =
      λ o. elim o [ none ↦ none | some out ↦ print_features register table out ] in
    let rest = names register table in
    elim (Bool-cases (bit_and register feature == 0)) [
      | inl clear ↦
          ap go (if-true _ _ clear)
          ∙ print_features-names register table printed
          ∙ ap (λ t. some (printed ++ t)) (sym (if-true rest (s ++ 32 ∷ rest) clear))
      | inr set ↦
          ap go (
            if-false _ _ set
            ∙ printk-pieces printed (one_name s) [] (are_pieces_sound (one_name s) refl))
          ∙ print_features-names register table (printed ++ (s ++ 32 ∷ []))
          ∙ ap some (
              append_assoc printed (s ++ 32 ∷ []) rest
              ∙ ap (λ t. printed ++ t)
                  (append_assoc s (32 ∷ []) rest ∙ sym (if-false rest (s ++ 32 ∷ rest) set)))
    ]

title : List Piece
title = plain (codes "Cpu features: ") ∷ []

print_tables-names :
    (ecx edx : List Feature) (c : ℕ) (printed : List ℕ)
    → print_tables ecx edx c printed
      ≡ some (printed ++ (names c ecx ++ (names c edx ++ codes "\n")))
unfolding print_tables
print_tables-names ecx edx c printed =
    let last : Option (List ℕ) → Option (List ℕ) =
      λ o. elim o [ none ↦ none | some out ↦ printk out (codes "\n") [] ] in
    let both : Option (List ℕ) → Option (List ℕ) =
      λ o. elim o [ none ↦ none | some out ↦ last (print_features c edx out) ] in
    let newline : List Piece = plain (codes "\n") ∷ [] in
    ap both (print_features-names c ecx printed)
    ∙ ap last (print_features-names c edx (printed ++ names c ecx))
    ∙ printk-pieces ((printed ++ names c ecx) ++ names c edx) newline []
        (are_pieces_sound newline refl)
    ∙ ap some (
        append_assoc (printed ++ names c ecx) (names c edx) (codes "\n")
        ∙ append_assoc printed (names c ecx) (names c edx ++ codes "\n"))

-- The log shows, on one line, the names of the features of both tables whose bits are set in the
-- register ecx, in the order of the tables; the register edx does not matter.
pub remaining_features-lists :
    (time : Pointer) (c d : ℕ) (printed : List ℕ)
    → remaining_features time c d printed
      ≡ some (
          (printed ++ (stamp time ++ codes "Cpu features: "))
          ++ (names c cpuidstruct_ecx ++ (names c cpuidstruct_edx ++ codes "\n")))
unfolding remaining_features title
remaining_features-lists time c d printed =
    let go : Option (List ℕ) → Option (List ℕ) =
      λ o. elim o [ none ↦ none | some out ↦ print_tables cpuidstruct_ecx cpuidstruct_edx c out ] in
    ap go (
      log_printk-pieces time printed title [] (are_pieces_sound title refl)
      ∙ ap some (append_assoc printed (stamp time) (codes "Cpu features: ")))
    ∙ print_tables-names cpuidstruct_ecx cpuidstruct_edx c
        (printed ++ (stamp time ++ codes "Cpu features: "))
