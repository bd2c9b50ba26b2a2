-- ===== src/Kio/Log/Time.antt =====
-- About `log_printk` of root/orbit-kernel/util/kio.c and the time of root/orbit-kernel/util/irq.c.
use relics.Prelude.{
  ℕ, zero, suc, ◌+◌, ◌-◌, ◌/◌, ◌%◌, ◌^◌, ◌<◌, ◌≡◌, ◌≢◌, ◌∙◌, ap, refl, arith, true, Option, none,
  some, List, [], ◌∷◌, ◌++◌, All, All-append, Memory, length, replicate,
}
use mathlib.Core.Option
use relics.Kio.Digits.{zero_extend}
use relics.Kio.Digits.Numeral.{numeral}
use relics.Kio.Digits.Seconds.{seconds_text, thousandths, milliseconds_as_seconds-writes}
use relics.Kio.Format.{Argument}
use relics.Kio.Format.Numbers.{read_string-Holds, numeral-pos}
use relics.Kio.Format.Pieces.{
  Piece, plain, characters, IsPiece, formatted, arguments, meant, are_pieces_sound,
  actual_print-pieces,
}
use relics.Kio.Log.{Pointer, buffer, printk, time_since_boot, characters_of, log_printk}

pub printk-pieces :
    (printed : List ℕ) (xs : List Piece) (rest : List Argument)
    → All IsPiece xs
    → printk printed (formatted xs) (arguments xs ++ rest) ≡ some (printed ++ meant xs)
unfolding printk
printk-pieces printed xs rest h =
    ap (Option.map (λ t. printed ++ t)) (actual_print-pieces xs rest h)

-- "[", the time and "] ".
prefix : Pointer → List Piece
prefix time = plain (91 ∷ []) ∷ characters (characters_of time) ∷ plain (93 ∷ 32 ∷ []) ∷ []

-- What stands in front of a line of the log.
abbrev pub stamp : Pointer → List ℕ
stamp time = 91 ∷ (characters_of time ++ 93 ∷ 32 ∷ [])

-- A line of the log whose format is put together from known pieces.
pub log_printk-pieces :
    (time : Pointer) (printed : List ℕ) (xs : List Piece) (rest : List Argument)
    → All IsPiece xs
    → log_printk (some time) printed (formatted xs) (arguments xs ++ rest)
      ≡ some ((printed ++ stamp time) ++ meant xs)
unfolding log_printk prefix
log_printk-pieces time printed xs rest h =
    let go : Option (List ℕ) → Option (List ℕ) =
      λ o. elim o [ none ↦ none | some out ↦ printk out (formatted xs) (arguments xs ++ rest) ] in
    ap go (printk-pieces printed (prefix time) [] (are_pieces_sound (prefix time) refl))
    ∙ printk-pieces (printed ++ stamp time) xs rest h

thousandths-pos : (n stale : ℕ) → n ≢ 0 → All (λ c. 0 < c) (thousandths n stale)
unfolding zero_extend
thousandths-pos zero stale h = absurd (h refl)
thousandths-pos (suc n) stale h =
    All-append (λ c. 0 < c) (replicate (3 - length (numeral (suc n))) b'0') (numeral (suc n))
      (zeros-pos (3 - length (numeral (suc n)))) (numeral-pos (suc n))
  where
    zeros-pos : (k : ℕ) → All (λ c. 0 < c) (replicate k b'0')
    zeros-pos zero = tt
    zeros-pos (suc k) = (omega arith, zeros-pos k)

-- Between two whole seconds the time that stands in the log is the number of ticks in seconds and
-- milliseconds, as long as the timer counts and whatever the buffer held before.
pub time_since_boot-reads :
    (ticks buf : ℕ) (m : Memory)
    → ticks < 2 ^ 64
    → ticks % 1000 ≢ 0
    → (time : Pointer) × (time_since_boot true ticks buf m ≡ some time)
      × (characters_of time ≡ numeral (ticks / 1000) ++ 46 ∷ zero_extend 3 (numeral (ticks % 1000)))
unfolding time_since_boot characters_of
time_since_boot-reads ticks buf m h part =
    let w = milliseconds_as_seconds-writes ticks buf m h in
    (
      buffer buf w.0.after,
      ap (Option.map (λ m'. buffer buf m')) w.0.returns,
      read_string-Holds (seconds_text ticks buf m) 64 buf w.0.after (text-pos ticks buf m part)
            w.0.holds w.0.nul (omega (arith, w.1))
          ∙ ap (λ t. numeral (ticks / 1000) ++ 46 ∷ t)
              (thousandths-text (ticks % 1000) (m (buf + length (numeral (ticks / 1000)) + 3))
                part),
    )
  where
    thousandths-text : (n stale : ℕ) → n ≢ 0 → thousandths n stale ≡ zero_extend 3 (numeral n)
    thousandths-text zero stale h = absurd (h refl)
    thousandths-text (suc n) stale h = refl

    text-pos :
        (ticks buf : ℕ) (m : Memory)
        → ticks % 1000 ≢ 0
        → All (λ c. 0 < c) (seconds_text ticks buf m)
    text-pos ticks buf m part =
        All-append (λ c. 0 < c) (numeral (ticks / 1000)) _ (numeral-pos (ticks / 1000))
          (omega arith, thousandths-pos (ticks % 1000) _ part)
