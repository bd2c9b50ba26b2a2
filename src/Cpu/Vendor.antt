-- ===== src/Cpu/Vendor.antt =====
-- What root/orbit-kernel/util/cpu.c reads out of `cpuid`.
use Prim.Native.Nat.{bit_and}
use native.Mathlib.Nat.{mul-div_left, one-le-pow}
use relics.Prelude.{
  ℕ, ◌+◌, ◌*◌, ◌/◌, ◌%◌, ◌^◌, ◌<◌, ◌≡◌, ◌≢◌, refl, arith, ap, ◌∙◌, u8, u16, List, [], ◌∷◌, ne→eqb,
  length,
}
use relics.Prelude.Bits.{bit_and-mask, bit_and-shifted}
use relics.Cpu.{register_bytes, set_cpu_vendor_name, model_family_stepping}

-- The number that bytes make up, the lowest first.
abbrev pub little_endian : List ℕ → ℕ
little_endian [] = 0
little_endian (b ∷ bytes) = b + 256 * little_endian bytes

byte_at : (k register : ℕ) → bit_and register (255 * 2 ^ k) / 2 ^ k ≡ register / 2 ^ k % 256
byte_at k register =
    ap (λ x. x / 2 ^ k)
      (bit_and-shifted k register 255 ∙ ap (λ x. x * 2 ^ k) (bit_and-mask 8 (register / 2 ^ k)))
    ∙ mul-div_left (register / 2 ^ k % 256) {n = 2 ^ k} (one-le-pow k 2 (omega arith))

register_bytes-value :
    (register rest : ℕ)
    → register < 2 ^ 32
    → u8 (bit_and register 255)
        + 256
          * (u8 (bit_and register (255 * 2 ^ 8) / 2 ^ 8)
              + 256
                * (u8 (bit_and register (255 * 2 ^ 16) / 2 ^ 16)
                    + 256 * (u8 (bit_and register (255 * 2 ^ 24) / 2 ^ 24) + 256 * rest)))
      ≡ register + 2 ^ 32 * rest
register_bytes-value register rest h = omega (
  arith,
  h,
  bit_and-mask 8 register,
  byte_at 8 register,
  byte_at 16 register,
  byte_at 24 register,
)

-- The vendor's name has twelve characters before the NUL, which are the bytes of ebx, edx and ecx:
-- each register is the little-endian number of its four characters.
pub set_cpu_vendor_name-bytes :
    (ebx edx ecx : ℕ)
    → ebx < 2 ^ 32
    → edx < 2 ^ 32
    → ecx < 2 ^ 32
    → (length (set_cpu_vendor_name ebx edx ecx) ≡ 13)
      × (little_endian (set_cpu_vendor_name ebx edx ecx) ≡ ebx + 2 ^ 32 * (edx + 2 ^ 32 * ecx))
unfolding set_cpu_vendor_name register_bytes
set_cpu_vendor_name-bytes ebx edx ecx h k l = (
  refl,
  register_bytes-value ebx _ h
      ∙ ap (λ t. ebx + 2 ^ 32 * t)
          (register_bytes-value edx _ k
            ∙ ap (λ t. edx + 2 ^ 32 * t) (register_bytes-value ecx 0 l ∙ omega arith)),
)

-- With a base family of 15 and a nonzero extended family, the family is their sum and the extended
-- model, bits 16 to 19, does not count.
pub model_family_stepping-extended :
    (eax : ℕ)
    → eax / 2 ^ 8 % 16 ≡ 15
    → eax / 2 ^ 20 % 256 ≢ 0
    → ((model_family_stepping eax).family ≡ 15 + eax / 2 ^ 20 % 256)
      × ((model_family_stepping eax).model ≡ eax / 2 ^ 4 % 16)
unfolding model_family_stepping
model_family_stepping-extended eax e ne =
    let f : bit_and (eax / 2 ^ 8) 0xF ≡ 15 = bit_and-mask 4 (eax / 2 ^ 8) ∙ e in
    let x = bit_and (eax / 2 ^ 20) 0xFF in
    let g : x ≡ eax / 2 ^ 20 % 256 = bit_and-mask 8 (eax / 2 ^ 20) in
    let u : u16 (15 + x) ≡ 15 + x = omega (arith, g) in
    rw (f, u, ne→eqb (15 + x) 15 (omega (arith, g, ne)), ne→eqb (15 + x) 6 (omega arith))
      (ap (λ t. 15 + t) g, bit_and-mask 4 (eax / 2 ^ 4))
