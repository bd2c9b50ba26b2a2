-- ===== src/Interrupts/Descriptors.antt =====
-- The descriptor table that root/orbit-kernel/util/idt.c builds.
use relics.Prelude.{
  ℕ, zero, suc, ◌+◌, ◌-◌, ◌*◌, ◌/◌, ◌^◌, ◌≤◌, ◌<◌, ◌≡◌, ◌⊎◌, inl, inr, refl, arith, tests, ap, sym,
  ◌∙◌, u8, ne→eqb, eq→eqb, lt→ltb, if-true, ◌==◌, ltb, if◌then◌else◌, Bool-cases, eqb→eq,
}
use mathlib.Core.Path.{subst}
use relics.Ports.{Trace}
use relics.Prelude.Bits.{bit_and-mask}
use relics.Interrupts.{
  IdtEntry, Interrupts, descriptor, idt_set_descriptor, install_stubs, clear_idt, fill_irq_table,
  idt_init, empty_entry, irq_install_handler,
}

-- The address that the processor puts together from a descriptor.
abbrev pub address : IdtEntry → ℕ
address e = e.isr_low + e.isr_mid * 2 ^ 16 + e.isr_high * 2 ^ 32

-- A present 64-bit interrupt gate of ring 0 in the kernel's code segment.
abbrev pub IsGate : IdtEntry → Type 0
IsGate e =
    (e.kernel_cs ≡ 0x8)
    × (e.ist ≡ 0)
    × (e.zero_bits ≡ 0)
    × (e.type_bits ≡ 0xe)
    × (e.dpl ≡ 0)
    × (e.p ≡ 1)
    × (e.reserved ≡ 0)

descriptor-address : (isr : ℕ) → isr < 2 ^ 64 → address (descriptor isr) ≡ isr
unfolding descriptor
descriptor-address isr h = omega (arith, bit_and-mask 16 isr, bit_and-mask 16 (isr / 2 ^ 16))

descriptor-IsGate : (isr : ℕ) → IsGate (descriptor isr)
unfolding descriptor
descriptor-IsGate isr = (refl, refl, refl, refl, refl, refl, refl)

install_stubs-outside :
    (table : ℕ → ℕ) (offset left vector : ℕ) (s : Interrupts) (v : ℕ)
    → vector + left ≤ 256
    → (v < vector) ⊎ (vector + left ≤ v)
    → (install_stubs table offset left vector s).idt v ≡ s.idt v
unfolding install_stubs idt_set_descriptor
install_stubs-outside table offset zero vector s v b h = refl
install_stubs-outside table offset (suc left) vector s v b h =
    install_stubs-outside table offset left (vector + 1)
      (idt_set_descriptor vector (table (vector - offset)) s) v (omega arith) (ground arith)
    ∙ ap (λ t. if t then descriptor (table (vector - offset)) else s.idt v)
        (ne→eqb v (u8 vector) (ground arith))

install_stubs-inside :
    (table : ℕ → ℕ) (offset left vector : ℕ) (s : Interrupts) (v : ℕ)
    → vector + left ≤ 256
    → vector ≤ v
    → v < vector + left
    → (install_stubs table offset left vector s).idt v ≡ descriptor (table (v - offset))
unfolding install_stubs idt_set_descriptor
install_stubs-inside table offset zero vector s v b lo hi = absurd (omega arith)
install_stubs-inside table offset (suc left) vector s v b lo hi =
    let s' = idt_set_descriptor vector (table (vector - offset)) s in
    elim (Bool-cases (v == vector)) [
      | inl e ↦
          install_stubs-outside table offset left (vector + 1) s' v (omega arith)
            (inl (omega (tests, e)))
          ∙ ap (λ t. if t then descriptor (table (vector - offset)) else s.idt v)
              (eq→eqb v (u8 vector) (omega (tests, e)))
          ∙ ap (λ t. descriptor (table (t - offset))) (sym (eqb→eq v vector e))
      | inr e ↦
          install_stubs-inside table offset left (vector + 1) s' v (omega arith) (omega (tests, e))
            (omega arith)
    ]

-- The stub that a vector is to run.
abbrev pub stub : (isr_stubs irq_stubs : ℕ → ℕ) (v : ℕ) → ℕ
stub isr_stubs irq_stubs v = if ltb v 32 then isr_stubs v else irq_stubs (v - 32)

module _ (isr_stubs irq_stubs : ℕ → ℕ) (inb : Trace → ℕ → ℕ) (s : Interrupts) (v : ℕ) where
  first_stubs : Interrupts
  first_stubs = install_stubs isr_stubs 0 32 0 (clear_idt s)

  idt_init-entry :
      (idt_init isr_stubs irq_stubs inb s).idt v
      ≡ (install_stubs irq_stubs 32 15 32 first_stubs).idt v
  unfolding idt_init fill_irq_table irq_install_handler first_stubs
  idt_init-entry = refl

  idt_init-descriptor :
      v < 47 → (idt_init isr_stubs irq_stubs inb s).idt v ≡ descriptor (stub isr_stubs irq_stubs v)
  unfolding first_stubs
  idt_init-descriptor b = elim (Bool-cases (ltb v 32)) [
    | inl e ↦
        idt_init-entry
        ∙ install_stubs-outside irq_stubs 32 15 32 first_stubs v (omega arith)
            (inl (omega (tests, e)))
        ∙ install_stubs-inside isr_stubs 0 32 0 (clear_idt s) v (omega arith) (omega arith)
            (omega (tests, e))
        ∙ ap (λ t. descriptor (isr_stubs t)) (omega arith)
        ∙ ap (λ t. descriptor (if t then isr_stubs v else irq_stubs (v - 32))) (sym e)
    | inr e ↦
        idt_init-entry
        ∙ install_stubs-inside irq_stubs 32 15 32 first_stubs v (omega arith) (omega (tests, e))
            (omega arith)
        ∙ ap (λ t. descriptor (if t then isr_stubs v else irq_stubs (v - 32))) (sym e)
  ]

-- After `idt_init`, every vector below 47 is an interrupt gate of the kernel, and the three parts
-- of its address make up the address of its stub, which has 64 bits.
pub idt_init-Gates :
    (isr_stubs irq_stubs : ℕ → ℕ) (inb : Trace → ℕ → ℕ) (s : Interrupts) (v : ℕ)
    → v < 47
    → stub isr_stubs irq_stubs v < 2 ^ 64
    → IsGate ((idt_init isr_stubs irq_stubs inb s).idt v)
      × (address ((idt_init isr_stubs irq_stubs inb s).idt v) ≡ stub isr_stubs irq_stubs v)
idt_init-Gates isr_stubs irq_stubs inb s v b h =
    let e = idt_init-descriptor isr_stubs irq_stubs inb s v b in
    (
      subst IsGate (sym e) (descriptor-IsGate (stub isr_stubs irq_stubs v)),
      ap address e ∙ descriptor-address (stub isr_stubs irq_stubs v) h,
    )

-- The vectors from 47 to 254 stay empty: the last line of the second controller, vector 47, has no
-- gate.
pub idt_init-empty :
    (isr_stubs irq_stubs : ℕ → ℕ) (inb : Trace → ℕ → ℕ) (s : Interrupts) (v : ℕ)
    → 47 ≤ v
    → v < 255
    → (idt_init isr_stubs irq_stubs inb s).idt v ≡ empty_entry
unfolding first_stubs clear_idt
idt_init-empty isr_stubs irq_stubs inb s v lo hi =
    idt_init-entry isr_stubs irq_stubs inb s v
    ∙ install_stubs-outside irq_stubs 32 15 32 (first_stubs isr_stubs irq_stubs inb s v) v
        (omega arith) (inr (omega arith))
    ∙ install_stubs-outside isr_stubs 0 32 0 (clear_idt s) v (omega arith) (inr (omega arith))
    ∙ if-true empty_entry _ (lt→ltb v 255 hi)
