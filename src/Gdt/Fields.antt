-- ===== src/Gdt/Fields.antt =====
-- The fields of a descriptor that root/orbit-kernel/util/gdt.c fills.
use Prim.Native.Nat.{bit_and, bit_or}
use native.Mathlib.Nat.{
  pow-suc, pow-succ', pow-le-pow_right, div-div-eq-div-mul, div-add-mod, mod-one, mul-div_left,
  one-le-pow,
}
use relics.Prelude.{
  ℕ, zero, suc, ◌+◌, ◌-◌, ◌*◌, ◌/◌, ◌%◌, ◌^◌, ◌≤◌, ◌<◌, ◌≡◌, refl, u8, u16, u64, arith, ap, ap₂,
  ne→eqb, lt→ltb, Memory, sym, ◌⊎◌, inl, inr, ◌∙◌,
}
use relics.Prelude.Bits.{bit_and-mask, bit_or-above, bit_and-shifted}
use relics.Gdt.{
  fill_gdt_descriptor_item, clear_descriptors, set_bit_value, set_bits_loop, set_several_bits,
  fill_descriptor, gdt_init,
}

-- One bit of a pattern.
bit : (i a : ℕ) → bit_and a (2 ^ i) / 2 ^ i ≡ a / 2 ^ i % 2
bit i a =
    ap (λ x. x / 2 ^ i)
      (ap (bit_and a) (omega arith)
        ∙ bit_and-shifted i a 1
        ∙ ap (λ x. x * 2 ^ i) (bit_and-mask 1 (a / 2 ^ i)))
    ∙ mul-div_left (a / 2 ^ i % 2) {n = 2 ^ i} (one-le-pow i 2 (omega arith))

-- The low digits of a number, one more.
low_double : (m p : ℕ) → 1 ≤ m → p % (2 * m) ≡ p % 2 + p / 2 % m * 2
low_double m p h = omega (
  arith,
  div-div-eq-div-mul p 2 m,
  div-add-mod p (2 * m),
  div-add-mod (p / 2) m,
  ap (λ t. m * t) (div-div-eq-div-mul p 2 m),
)

low_suc : (left p : ℕ) → p % 2 ^ suc left ≡ p % 2 + p / 2 % 2 ^ left * 2
low_suc left p =
    ap (λ t. p % t) (pow-succ' 2 left) ∙ low_double (2 ^ left) p (one-le-pow left 2 (omega arith))

below_64 : (k : ℕ) → k < 64 → 2 ^ k * 2 ≤ 2 ^ 64
below_64 k h =
    omega (arith, pow-le-pow_right {n = 2} (omega arith) {i = suc k} {j = 64} h, pow-suc 2 k)

next_pattern : (pattern i : ℕ) → pattern / 2 ^ (i + 1) ≡ pattern / 2 ^ i / 2
next_pattern pattern i =
    ap (λ t. pattern / 2 ^ t) (omega arith)
    ∙ ap (λ t. pattern / t) (pow-suc 2 i)
    ∙ sym (div-div-eq-div-mul pattern (2 ^ i) 2)

bit_times : (p w : ℕ) → p % 2 * w ≤ w
bit_times p w = elim (mod-two_cases p) [
  | inl e ↦ omega (arith, ap (λ t. t * w) e)
  | inr e ↦ omega (arith, ap (λ t. t * w) e)
]
  where
    mod-two_cases : (p : ℕ) → (p % 2 ≡ 0) ⊎ (p % 2 ≡ 1)
    mod-two_cases p = ground arith

gather : (num v w r : ℕ) → num + v * w + r * (w * 2) ≡ num + (v + r * 2) * w
gather num v w r = grind arith

set_bits_loop-Fills :
    (left num idx i pattern : ℕ)
    → num < 2 ^ idx
    → idx + left ≤ 64
    → set_bits_loop left num idx i pattern ≡ num + pattern / 2 ^ i % 2 ^ left * 2 ^ idx
unfolding set_bits_loop set_bit_value
set_bits_loop-Fills zero num idx i pattern h b =
    omega (arith, ap (λ t. t * 2 ^ idx) (mod-one (pattern / 2 ^ i)))
set_bits_loop-Fills (suc left) num idx i pattern h b =
    let p = pattern / 2 ^ i in
    let v = p % 2 in
    let w = 2 ^ idx in
    let e : bit_and pattern (2 ^ i) / 2 ^ i ≡ v = bit i pattern in
    let half : w * 2 ≤ 2 ^ 64 = below_64 idx (omega arith) in
    let vw : v * w ≤ w = bit_times p w in
    let f : u64 (v * w) ≡ v * w = omega (arith, half, vw, one-le-pow idx 2) in
    let g : bit_or num (v * w) ≡ num + v * w = bit_or-above idx num v h in
    let up : 2 ^ (idx + 1) ≡ w * 2 = ap (λ t. 2 ^ t) (omega arith) ∙ pow-suc 2 idx in
    let rest : set_bits_loop left (num + v * w) (idx + 1) (i + 1) pattern
        ≡ num + v * w + pattern / 2 ^ (i + 1) % 2 ^ left * 2 ^ (idx + 1) =
      set_bits_loop-Fills left (num + v * w) (idx + 1) (i + 1) pattern (omega (arith, up, vw))
        (omega arith) in
    ap (λ t. set_bits_loop left (bit_or num (u64 (t * w))) (idx + 1) (i + 1) pattern) e
    ∙ ap (λ t. set_bits_loop left (bit_or num t) (idx + 1) (i + 1) pattern) f
    ∙ ap (λ t. set_bits_loop left t (idx + 1) (i + 1) pattern) g
    ∙ rest
    ∙ ap₂ (λ s t. num + v * w + s % 2 ^ left * t) (next_pattern pattern i) up
    ∙ gather num v w (p / 2 % 2 ^ left)
    ∙ ap (λ t. num + t * w) (sym (low_suc left p))

-- Filling free bits adds the pattern's low digits there: the number ends below the field, and the
-- field ends within 64 bits.
pub set_several_bits-Fills :
    (num lo hi pattern : ℕ)
    → num < 2 ^ lo
    → lo ≤ hi
    → hi ≤ 64
    → set_several_bits num lo hi pattern ≡ num + pattern % 2 ^ (hi - lo) * 2 ^ lo
unfolding set_several_bits
set_several_bits-Fills num lo hi pattern h p q =
    set_bits_loop-Fills (hi - lo) num lo 0 pattern h (omega arith)
    ∙ ap (λ t. num + t % 2 ^ (hi - lo) * 2 ^ lo) (omega arith)

-- The descriptor that is filled over an empty one.
abbrev pub Descriptor : (d base limit access flags : ℕ) → Type 0
Descriptor d base limit access flags =
    (d % 2 ^ 16 ≡ limit % 2 ^ 16)
    × (d / 2 ^ 16 % 2 ^ 24 ≡ base % 2 ^ 24)
    × (d / 2 ^ 40 % 2 ^ 8 ≡ access)
    × (d / 2 ^ 48 % 2 ^ 4 ≡ limit / 2 ^ 16)
    × (d / 2 ^ 52 % 2 ^ 4 ≡ flags)
    × (d / 2 ^ 56 ≡ base / 2 ^ 24)

-- Six fields, the first lowest.
abbrev layout : (a b c e f g : ℕ) → ℕ
layout a b c e f g = a + b * 2 ^ 16 + c * 2 ^ 40 + e * 2 ^ 48 + f * 2 ^ 52 + g * 2 ^ 56

step :
    (d s lo hi pattern field : ℕ)
    → d ≡ s
    → s < 2 ^ lo
    → lo ≤ hi
    → hi ≤ 64
    → pattern % 2 ^ (hi - lo) ≡ field
    → set_several_bits d lo hi pattern ≡ s + field * 2 ^ lo
step d s lo hi pattern field e h p q f =
    ap (λ t. set_several_bits t lo hi pattern) e
    ∙ set_several_bits-Fills s lo hi pattern h p q
    ∙ ap (λ t. s + t * 2 ^ lo) f

fill_descriptor-layout :
    (base limit access flags : ℕ)
    → base < 2 ^ 32
    → limit < 2 ^ 20
    → access < 2 ^ 8
    → flags < 2 ^ 4
    → fill_descriptor 0 base limit access flags
      ≡ layout (limit % 2 ^ 16) (base % 2 ^ 24) access (limit / 2 ^ 16) flags (base / 2 ^ 24)
unfolding fill_descriptor
fill_descriptor-layout base limit access flags hb hl ha hf =
    let a = limit % 2 ^ 16 in
    let b = base % 2 ^ 24 in
    let s1 = a in
    let s2 = s1 + b * 2 ^ 16 in
    let s3 = s2 + access * 2 ^ 40 in
    let s4 = s3 + limit / 2 ^ 16 * 2 ^ 48 in
    let s5 = s4 + flags * 2 ^ 52 in
    step _ s5 56 64 (u8 (base / 2 ^ 24)) (base / 2 ^ 24)
      (step _ s4 52 56 (bit_and flags 0xF) flags
        (step _ s3 48 52 (bit_and (limit / 2 ^ 16) 0xF) (limit / 2 ^ 16)
          (step _ s2 40 48 access access
            (step _ s1 16 40 (bit_and base 0xFFFFFF) b
              (step 0 0 0 16 (u16 (bit_and limit 0x0000FFFF)) a refl (omega arith) (omega arith)
                  (omega arith) (omega (arith, bit_and-mask 16 limit))
                ∙ omega arith)
              (omega arith) (omega arith) (omega arith) (omega (arith, bit_and-mask 24 base)))
            (omega arith) (omega arith) (omega arith) (omega arith))
          (omega arith) (omega arith) (omega arith)
          (omega (arith, bit_and-mask 4 (limit / 2 ^ 16))))
        (omega arith) (omega arith) (omega arith) (omega (arith, bit_and-mask 4 flags)))
      (omega arith) (omega arith) (omega arith) (omega arith)

-- Over an empty descriptor, `fill_gdt_descriptor_item` puts a 20-bit limit, a 32-bit base, the
-- access byte and the four flags where a segment descriptor has them, and nothing elsewhere.
pub fill_descriptor-Descriptor :
    (base limit access flags : ℕ)
    → base < 2 ^ 32
    → limit < 2 ^ 20
    → access < 2 ^ 8
    → flags < 2 ^ 4
    → Descriptor (fill_descriptor 0 base limit access flags) base limit access flags
fill_descriptor-Descriptor base limit access flags hb hl ha hf =
    let e = fill_descriptor-layout base limit access flags hb hl ha hf in
    (
      omega (arith, e),
      omega (arith, e),
      omega (arith, e),
      omega (arith, e),
      omega (arith, e),
      omega (arith, e),
    )

-- The table that is loaded: an empty descriptor, then a code and a data segment of the whole
-- address range that are present, in ring 0 and in units of 4 KiB, and every later descriptor but
-- the table's last empty, whatever the table held.
pub gdt_init-Descriptors :
    (t : Memory) (v : ℕ)
    → 3 ≤ v
    → v < 8191
    → (gdt_init t 0 ≡ 0)
      × Descriptor (gdt_init t 1) 0 0xFFFFF 0x9A 0xA
      × Descriptor (gdt_init t 2) 0 0xFFFFF 0x92 0xA
      × (gdt_init t v ≡ 0)
unfolding gdt_init fill_gdt_descriptor_item clear_descriptors
gdt_init-Descriptors t v lo hi = (
  fill_descriptor-layout 0 0 0 0 (omega arith) (omega arith) (omega arith) (omega arith),
  fill_descriptor-Descriptor 0 0xFFFFF 0x9A 0xA (omega arith) (omega arith) (omega arith)
      (omega arith),
  fill_descriptor-Descriptor 0 0xFFFFF 0x92 0xA (omega arith) (omega arith) (omega arith)
      (omega arith),
  rw
      (
        ne→eqb v 2 (omega arith),
        ne→eqb v 1 (omega arith),
        ne→eqb v 0 (omega arith),
        lt→ltb v 8191 hi,
      )
      refl,
)
