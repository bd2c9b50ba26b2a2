-- ===== src/E820/Listing.antt =====
-- About `get_mem_map` of root/orbit-kernel/util/e820.c.
use relics.Prelude.{codes, ℕ, zero, suc, ◌+◌, ◌-◌, ◌^◌, u64, Option, List, [], ◌∷◌, ◌++◌}
use mathlib.Core.Option
use relics.Kio.Format.Pieces.{Piece, plain, characters, int, hexadecimal, meant}
use relics.Kio.Log.{Pointer}
use relics.Kio.Log.Time.{stamp}
use relics.E820.{E820Map64, e820_type_human_name}

-- An entry: the addresses of its first and last byte in hexadecimal, and its kind.
abbrev pub entry : E820Map64 → List Piece
entry e =
    hexadecimal e.baseaddr
    ∷ plain (codes "-")
    ∷ hexadecimal (u64 (e.baseaddr + e.length + 2 ^ 64 - 1))
    ∷ plain (codes " ")
    ∷ characters (e820_type_human_name e.entry_type)
    ∷ plain (codes "\n")
    ∷ []

title : List Piece
title = plain (codes "E820 Memory Map:\n") ∷ []

count_line : ℕ → List Piece
count_line count = plain (codes "entry count: ") ∷ int count ∷ plain (codes "\n") ∷ []

-- A line of the log, with its time.
abbrev pub line : Pointer → List Piece → List ℕ
line time xs = stamp time ++ meant xs

-- The lines of a part of the map.
abbrev pub entries : (clock : ℕ → Pointer) (left i at : ℕ) (e820_map : ℕ → E820Map64) → List ℕ
entries clock zero i at e820_map = []
entries clock (suc left) i at e820_map =
    line (clock at) (entry (e820_map i)) ++ entries clock left (i + 1) (at + 1) e820_map

-- The whole listing.
pub listing : (clock : ℕ → Pointer) (count : ℕ) (e820_map : ℕ → E820Map64) → List ℕ
unfolding title count_line
listing clock count e820_map =
    line (clock 0) title ++ (line (clock 1) (count_line count) ++ entries clock count 0 2 e820_map)
