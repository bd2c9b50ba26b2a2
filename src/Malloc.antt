-- ===== src/Malloc.antt =====
-- root/orbit-kernel/util/malloc_freelist.c: first-fit allocation from an address-ordered free list,
-- with every store into the flat memory and every 64-bit wrap. `head` is the address of the static
-- `free_list`. A loop runs on fuel; `none` means that the fuel ran out.
-- The children: the list-level specification (Spec), the heap invariant (State), and what relates
-- the code to both.
pub mod Spec
pub mod Align
pub mod State
pub mod Search
pub mod Take
pub mod Alloc
pub mod Merge
pub mod Coalesce
pub mod Free
pub mod Order
pub mod RoundTrip
pub mod Conserved
pub mod Payload
pub mod History
pub mod AddBlock
pub mod Regions
pub mod Booted
pub mod Client
pub mod Defragmented
mod Tests
use Prim.Native.Nat.{bit_and}
use relics.Prelude.{
  ℕ, zero, suc, ◌+◌, ◌-◌, ◌^◌, Bool, Option, none, some, List, [], ◌∷◌, ◌&&◌, not, Memory, write,
  u64, ltb, leb, ◌==◌, if◌then◌else◌,
}
use relics.LinkedList.{next, prev, list_add_between, list_add, list_add_tail, list_del}

-- Pointers and sizes have 64 bits.
abbrev pub sub64 : ℕ → ℕ → ℕ
sub64 a b = u64 (a + 2 ^ 64 - b)

-- `(num + (align - 1)) & ~(align - 1)` at `align = sizeof(void *)`.
pub align_up : ℕ → ℕ
align_up num = bit_and (u64 (num + 7)) (2 ^ 64 - 1 - 7)

-- offsetof(alloc_node_t, block), and the smallest block that is worth splitting off.
abbrev pub header_size : ℕ
header_size = 24

abbrev pub min_alloc_size : ℕ
min_alloc_size = header_size + 32

-- The field `size`, and the address of the field `block`, which is the pointer that is vended.
abbrev pub size_of : Memory → ℕ → ℕ
size_of m p = m (p + 16)

abbrev pub set_size : Memory → ℕ → ℕ → Memory
set_size m p v = write m (p + 16) v

-- How a walk along the list ends.
pub data Scan : Type 0 where
  hit : ℕ → Scan
  done : Scan
  out_of_fuel : Scan

-- The loop of `kmalloc`: the first node that is big enough.
pub find_fit : (fuel head size pos : ℕ) → Memory → Scan
find_fit zero head size pos m = out_of_fuel
find_fit (suc fuel) head size pos m =
    let rest = find_fit fuel head size (next m pos) m in
    if pos == head then done else if leb size (size_of m pos) then hit pos else rest

-- Split the found block if the rest is worth it, then unlink it.
pub take_block : (found size : ℕ) → Memory → Memory
take_block found size m =
    let left = sub64 (size_of m found) size in
    let new_block = u64 (found + header_size + size) in
    let m1 = set_size m new_block (sub64 left header_size) in
    let m2 = set_size m1 found size in
    let split = list_add_between new_block found (next m2 found) m2 in
    list_del found (if leb min_alloc_size left then split else m)

pub kmalloc : (fuel head size : ℕ) → Memory → Option (ℕ × Memory)
unfolding align_up find_fit take_block
kmalloc fuel head size m =
    let n = align_up size in
    if ltb 0 size
    then elim (find_fit fuel head n (next m head) m) [
      | out_of_fuel ↦ none
      | done ↦ some (0, m)
      | hit found ↦ some (found + header_size, take_block found n m)
    ]
    else some (0, m)

-- The loop of `kfree`: the first free node behind the block.
pub find_above : (fuel head current pos : ℕ) → Memory → Scan
find_above zero head current pos m = out_of_fuel
find_above (suc fuel) head current pos m =
    let rest = find_above fuel head current (next m pos) m in
    if pos == head then done else if ltb current pos then hit pos else rest

-- `list_for_each_entry_safe` of `defrag_free_list`: `temp` is read before the body runs, and
-- `last_block` is 0 until a block has been kept.
pub defrag_loop : (fuel head block temp last_block : ℕ) → Memory → Option Memory
defrag_loop zero head block temp last_block m = none
defrag_loop (suc fuel) head block temp last_block m =
    let m1 =
      set_size m last_block (u64 (size_of m last_block + u64 (header_size + size_of m block))) in
    let m2 = list_del block m1 in
    let joined = defrag_loop fuel head temp (next m2 temp) last_block m2 in
    let kept = defrag_loop fuel head temp (next m temp) block m in
    if block == head
    then some m
    else if not (last_block == 0) && u64 (last_block + header_size + size_of m last_block) == block
    then joined
    else kept

pub defrag_free_list : (fuel head : ℕ) → Memory → Option Memory
unfolding defrag_loop
defrag_free_list fuel head m = defrag_loop fuel head (next m head) (next m (next m head)) 0 m

-- The part of `kfree` behind the test for NULL, with the node of the block.
pub put_back : (fuel head current : ℕ) → Memory → Option Memory
unfolding find_above defrag_free_list
put_back fuel head current m = elim (find_above fuel head current (next m head) m) [
  | out_of_fuel ↦ none
  | done ↦ defrag_free_list fuel head (list_add_tail current head m)
  | hit above ↦ defrag_free_list fuel head (list_add_between current (prev m above) above m)
]

pub kfree : (fuel head ptr : ℕ) → Memory → Option Memory
unfolding put_back
kfree fuel head ptr m = if ptr == 0 then some m else put_back fuel head (sub64 ptr header_size) m

pub malloc_addblock : (head addr size : ℕ) → Memory → Memory
unfolding align_up
malloc_addblock head addr size m =
    let new_block = align_up addr in
    let m1 = set_size m new_block (sub64 (sub64 (u64 (addr + size)) new_block) header_size) in
    list_add new_block head m1

-- An entry of the memory map: base address and length.
pub kmalloc_init : (head : ℕ) → List (ℕ × ℕ) → Memory → Memory
unfolding malloc_addblock
kmalloc_init head [] m = m
kmalloc_init head ((baseaddr, len) ∷ usable) m =
    kmalloc_init head usable (malloc_addblock head baseaddr len m)

-- `panic2` does not return.
pub data Vended : Type 0 where
  panicked : Vended
  vended : ℕ → Memory → Vended

pub kmalloc_infallible : (fuel head size : ℕ) → Memory → Option Vended
unfolding kmalloc
kmalloc_infallible fuel head size m = elim (kmalloc fuel head size m) [
  | none ↦ none
  | some (p, m') ↦ some (if p == 0 then panicked else vended p m')
]
