-- ===== src/Input.antt =====
-- `getchark` of root/orbit-kernel/util/kio.c. Its loop reads a variable that the keyboard's
-- interrupt changes: the interrupts that arrive between its reads are a list, and an empty list
-- leaves the caller waiting.
pub mod Typing
use relics.Prelude.{ℕ, zero, suc, ◌==◌, if◌then◌else◌, Option, none, some, List, [], ◌∷◌}
use relics.Keyboard.{get_most_recent_char}
use relics.Interrupts.{Interrupts, Outcome, returned, halted, handle}
use relics.Pit.{Wake}

-- The state behind a call of `get_most_recent_char`.
abbrev pub taken : Interrupts → Interrupts
taken s = record s { keyboard = (get_most_recent_char s.keyboard).1 }

-- The character, the state and the interrupts that are left.
abbrev pub Got : Type 0
Got = ℕ × Interrupts × List Wake

-- A character that is there is returned; reading an empty variable again changes nothing, so that
-- one read stands for those before the next interrupt.
unfoldable pub getchark : List Wake → Interrupts → Option Got
getchark [] s =
    let c = (get_most_recent_char s.keyboard).0 in if c == 0 then none else some (c, taken s, [])
getchark ((r, scan_code) ∷ wakes) s =
    let c = (get_most_recent_char s.keyboard).0 in
    let rest : Option Got = elim (handle 1 scan_code 0 r (taken s)) [
      | none ↦ none
      | some o ↦ elim o [ returned s' ↦ getchark wakes s' | halted s' ↦ none ]
    ] in
    if c == 0 then rest else some (c, taken s, (r, scan_code) ∷ wakes)

abbrev pub Chars : Type 0
Chars = List ℕ × Interrupts × List Wake

-- A caller that reads some characters one after the other, as the shell does.
unfoldable pub getcharks : (left : ℕ) → List Wake → Interrupts → Option Chars
getcharks zero wakes s = some ([], s, wakes)
getcharks (suc left) wakes s = elim (getchark wakes s) [
  | none ↦ none
  | some (c, s', wakes') ↦ elim (getcharks left wakes' s') [
    | none ↦ none
    | some (cs, s'', wakes'') ↦ some (c ∷ cs, s'', wakes'')
  ]
]
