-- ===== src/Panic/Report.antt =====
-- About `panic2` of root/orbit-kernel/util/panic.c.
use relics.Prelude.{codes, ℕ, ◌≡◌, ◌∙◌, ap, refl, Option, none, some, List, [], ◌∷◌, ◌++◌}
use relics.Kio.Digits.Numeral.{integer}
use relics.Kio.Format.{signed}
use relics.Kio.Format.Text.{append_assoc}
use relics.Kio.Format.Pieces.{
  Piece, plain, characters, int, formatted, arguments, meant, are_pieces_sound,
}
use relics.Kio.Log.{printk}
use relics.Kio.Log.Time.{printk-pieces}
use relics.Panic.{issue, panic2}

message : List ℕ → List Piece
message errmsg = characters errmsg ∷ plain (codes "\n") ∷ []

error_code : ℕ → List Piece
error_code i =
    plain (codes "Error code: ")
    ∷ int i
    ∷ plain (codes " (")
    ∷ characters (issue i)
    ∷ plain (codes ")\n")
    ∷ []

-- What a panic reports.
abbrev pub report : (i : ℕ) (errmsg : List ℕ) → List ℕ
report i errmsg =
    errmsg
    ++ (10
        ∷ ((codes "Error code: ")
            ++ (integer (signed 32 i) ++ ((codes " (") ++ (issue i ++ (codes ")\n"))))))

pub panic2-reports :
    (i : ℕ) (errmsg printed : List ℕ) → panic2 i errmsg printed ≡ some (printed ++ report i errmsg)
unfolding panic2 message error_code
panic2-reports i errmsg printed =
    let go : Option (List ℕ) → Option (List ℕ) = λ o. elim o [
      | none ↦ none
      | some out ↦ printk out (formatted (error_code i)) (arguments (error_code i) ++ [])
    ] in
    ap go (printk-pieces printed (message errmsg) [] (are_pieces_sound (message errmsg) refl))
    ∙ printk-pieces (printed ++ meant (message errmsg)) (error_code i) []
        (are_pieces_sound (error_code i) refl)
    ∙ ap some (
        append_assoc printed (meant (message errmsg)) (meant (error_code i))
        ∙ ap (λ t. printed ++ t) (append_assoc errmsg (codes "\n") (meant (error_code i))))
