-- ===== src/Input/Typing.antt =====
-- Characters that are typed while the timer runs: `getchark` of root/orbit-kernel/util/kio.c with
-- the handlers of root/orbit-kernel/util/idt.c.
use relics.Prelude.{ℕ, ◌≡◌, ◌≢◌, Option, none, some, List, [], ◌∷◌, ◌++◌}
use relics.Keyboard.{Keyboard}
use relics.Interrupts.{Registers, Interrupts, Outcome, returned, halted}
use relics.Interrupts.Dispatch.{Installed}
use relics.Interrupts.Runs.{press}
use relics.Pit.{Wake}
use relics.Pit.Sleep.{Ticks}
use relics.Input.{Got, Chars, getchark, getcharks}

-- The rest of a wait behind an interrupt.
wait : List Wake → Option Outcome → Option Got
wait wakes o = elim o [
  | none ↦ none
  | some o' ↦ elim o' [ returned s ↦ getchark wakes s | halted s ↦ none ]
]

-- A key press behind some ticks.
pub record Pressed (k : Keyboard) (rest : List Wake) (r : Option Got) : Type 0 where
  pub after : Interrupts
  pub found : r ≡ some (k.most_recent_char, after, rest)
  pub handlers : Installed after
  pub emptied : after.keyboard ≡ record k { most_recent_char = 0 }

-- Some ticks of the timer and then a key.
pub record Stroke : Type 0 where
  pub ticks : List Wake
  pub registers : Registers
  pub scan_code : ℕ

-- The interrupts of some strokes.
abbrev pub arriving : List Stroke → List Wake
arriving [] = []
arriving (k ∷ strokes) = k.ticks ++ ((k.registers, k.scan_code) ∷ arriving strokes)

-- The keyboard behind a stroke that was read.
abbrev pub read : ℕ → Keyboard → Keyboard
read scan_code k = record (press scan_code k) { most_recent_char = 0 }

-- The characters that the strokes stand for.
abbrev pub characters : List Stroke → Keyboard → List ℕ
characters [] k = []
characters (x ∷ strokes) k =
    (press x.scan_code k).most_recent_char ∷ characters strokes (read x.scan_code k)

-- Every stroke is ticks and a keyboard interrupt whose scan code has a character.
abbrev pub AreStrokes : List Stroke → Keyboard → Type 0
AreStrokes [] k = Unit
AreStrokes (x ∷ strokes) k =
    Ticks x.ticks
    × (x.registers.irq ≡ 33)
    × ((press x.scan_code k).most_recent_char ≢ 0)
    × AreStrokes strokes (read x.scan_code k)

-- How `getcharks` goes on behind a character.
abbrev more_of : ℕ → Option Chars → Option Chars
more_of c r = elim r [ none ↦ none | some (cs, s, wakes) ↦ some (c ∷ cs, s, wakes) ]

abbrev then_more : ℕ → Option Got → Option Chars
then_more left r = elim r [ none ↦ none | some (c, s, wakes) ↦ more_of c (getcharks left wakes s) ]
