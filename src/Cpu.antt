-- ===== src/Cpu.antt =====
-- root/orbit-kernel/util/cpu.c with the feature bits of root/orbit-kernel/cpu.h: what is read out
-- of the registers that `cpuid` returns. The instruction itself is assembly code: its results are
-- arguments.
pub mod Bits
pub mod Table
pub mod Vendor
pub mod Features
pub mod Report
use Prim.Native.Nat.{bit_and, bit_xor}
use relics.Prelude.{
  codes, not, ◌&&◌, Option, none, some, ℕ, ◌+◌, ◌*◌, ◌/◌, ◌^◌, u8, u16, Bool, true, false, ◌||◌,
  ◌==◌, if◌then◌else◌, List, [], ◌∷◌, ◌++◌,
}
use mathlib.Core.Option
use relics.Kio.Format.{word, string}
use relics.Kio.Log.{Pointer, printk, log_printk}
use relics.Cpu.Bits.{edx_bit, edx_sse, edx_fxsr}
use relics.Cpu.Table.{Feature, cpuidstruct_ecx, cpuidstruct_edx}

-- The four bytes of a register, the lowest first.
unfoldable pub register_bytes : (register : ℕ) → List ℕ
register_bytes register =
    u8 (bit_and register 255)
    ∷ u8 (bit_and register (255 * 2 ^ 8) / 2 ^ 8)
    ∷ u8 (bit_and register (255 * 2 ^ 16) / 2 ^ 16)
    ∷ u8 (bit_and register (255 * 2 ^ 24) / 2 ^ 24)
    ∷ []

-- The twelve characters and the NUL: `cpuid` leaves ebx, edx and ecx in cpu_vendor.
unfoldable pub set_cpu_vendor_name : (ebx edx ecx : ℕ) → List ℕ
unfolding register_bytes
set_cpu_vendor_name ebx edx ecx =
    register_bytes ebx ++ register_bytes edx ++ register_bytes ecx ++ 0 ∷ []

pub record ModelFamilyStepping : Type 0 where
  pub model : ℕ
  pub family : ℕ
  pub processor_stepping : ℕ

unfoldable pub model_family_stepping : (eax : ℕ) → ModelFamilyStepping
model_family_stepping eax =
    let base_model = bit_and (eax / 2 ^ 4) 0xF in
    let base_family = bit_and (eax / 2 ^ 8) 0xF in
    let family =
      if base_family == 0xF then u16 (base_family + bit_and (eax / 2 ^ 20) 0xFF) else base_family in
    let model =
      if family == 0xF || family == 0x6
      then u8 (base_model + bit_and (eax / 2 ^ 16) 0xFF * 2 ^ 4)
      else base_model in
    record { model = model; family = family; processor_stepping = bit_and eax 0xF }

-- The three numbers in the log.
unfoldable pub log_model : (time : Pointer) (eax : ℕ) → List ℕ → Option (List ℕ)
log_model time eax printed =
    let m = model_family_stepping eax in
    log_printk (some time) printed (codes "CPU Model=%x Family=%x Stepping=%x\n")
      (word m.model ∷ word m.family ∷ word m.processor_stepping ∷ [])

-- One loop over a table: the names of the bits that a register has.
unfoldable pub print_features : (register : ℕ) → List Feature → List ℕ → Option (List ℕ)
print_features register [] printed = some printed
print_features register ((feature, feature_string) ∷ table) printed =
    elim (if bit_and register feature == 0
      then some printed
      else printk printed (codes "%s ") (string feature_string ∷ [])) [
        | none ↦ none
        | some out ↦ print_features register table out
      ]

-- The two loops, which both test the register `c`, and the newline.
unfoldable pub print_tables : (ecx edx : List Feature) (c : ℕ) → List ℕ → Option (List ℕ)
print_tables ecx edx c printed = elim (print_features c ecx printed) [
  | none ↦ none
  | some out ↦ elim (print_features c edx out) [
    | none ↦ none
    | some out' ↦ printk out' (codes "\n") []
  ]
]

unfoldable pub remaining_features : (time : Pointer) (c d : ℕ) → List ℕ → Option (List ℕ)
remaining_features time c d printed =
    elim (log_printk (some time) printed (codes "Cpu features: ") []) [
      | none ↦ none
      | some out ↦ print_tables cpuidstruct_ecx cpuidstruct_edx c out
    ]

-- The members of `cpu_features` that are ever set.
pub record CpuFeatures : Type 0 where
  pub fpu : Bool
  pub cpuid : Bool
  pub sse : Bool

pub data FlagsOutcome : Type 0 where
  halted : CpuFeatures → (printed : List ℕ) → FlagsOutcome
  known : CpuFeatures → (printed : List ℕ) → FlagsOutcome

-- Whether edx has the bits of SSE and FXSR; the control registers are set in assembly code.
unfoldable pub has_sse : (time : Pointer) (d : ℕ) → List ℕ → Option (Bool × List ℕ)
has_sse time d printed =
    if not (bit_and d (edx_bit edx_sse) == 0) && not (bit_and d (edx_bit edx_fxsr) == 0)
    then some (true, printed)
    else Option.map (λ t. (false, t))
        (log_printk (some time) printed (codes "Something went wrong with the SSE process\n") [])

-- What follows `has_sse`: the line of the log, and the flag of `cpuid`.
unfoldable pub flags_behind_sse :
    (time : Pointer) (id_flag sse : Bool) → CpuFeatures → List ℕ → Option FlagsOutcome
flags_behind_sse time id_flag sse f printed =
    elim (if sse
      then log_printk (some time) printed (codes "SSE available\n") []
      else some printed) [
        | none ↦ none
        | some out ↦
            let g = record f { sse = if sse then true else f.sse } in
            some (if id_flag then known (record g { cpuid = true }) out else halted g out)
      ]

-- `fpu` and `id_flag` are what `has_fpu` and `has_eflag` find out in assembly code; `clock` gives
-- the times of the log's lines.
unfoldable pub cpuflags :
    (clock : ℕ → Pointer) (fpu id_flag : Bool) (d : ℕ) → CpuFeatures → List ℕ → Option FlagsOutcome
cpuflags clock fpu id_flag d f printed =
    if fpu
    then elim (log_printk (some (clock 0)) printed (codes "FPU available\n") []) [
      | none ↦ none
      | some out ↦ elim (has_sse (clock 1) d out) [
        | none ↦ none
        | some (sse, out') ↦ flags_behind_sse (clock 2) id_flag sse (record f { fpu = true }) out'
      ]
    ]
    else Option.map (halted f)
        (log_printk (some (clock 0)) printed (codes "No FPU available; halting\n") [])

-- `has_fpu`: the words of status and control that `fninit` leaves.
unfoldable pub has_fpu : (fsw fcw : ℕ) → Bool
has_fpu fsw fcw = fsw == 0 && bit_and fcw 0x103F == 0x003F

-- `has_eflag`: the flags that are read back before and after the bits of the mask are flipped.
unfoldable pub has_eflag : (mask f0 f1 : ℕ) → Bool
has_eflag mask f0 f1 = not (bit_and (bit_xor f0 f1) mask == 0)

-- What the processor answers: the words of the floating point unit, the flags, and the registers of
-- `cpuid` for the arguments 0 and 1.
pub record Processor : Type 0 where
  pub fsw : ℕ
  pub fcw : ℕ
  pub flags : ℕ
  pub flags_flipped : ℕ
  pub vendor_ebx : ℕ
  pub vendor_edx : ℕ
  pub vendor_ecx : ℕ
  pub signature : ℕ
  pub features_ecx : ℕ
  pub features_edx : ℕ

-- The characters in front of the NUL, which "%s" prints.
unfoldable pub until_nul : List ℕ → List ℕ
until_nul [] = []
until_nul (c ∷ cs) = let rest = until_nul cs in if c == 0 then [] else c ∷ rest

-- The lines of the log behind the name of the vendor.
unfoldable pub log_processor :
    (clock : ℕ → Pointer) → Processor → (name : List ℕ) → List ℕ → Option (List ℕ)
log_processor clock p name printed =
    elim (log_printk (some (clock 3)) printed (codes "CPU Vendor: %s\n")
      (string (until_nul name) ∷ [])) [
        | none ↦ none
        | some out ↦ elim (log_model (clock 4) p.signature out) [
          | none ↦ none
          | some out' ↦ remaining_features (clock 5) p.features_ecx p.features_edx out'
        ]
      ]

-- What `set_cpu_vendor_name` does behind `cpuflags`, if that returns.
unfoldable pub behind_flags : (clock : ℕ → Pointer) → Processor → FlagsOutcome → Option FlagsOutcome
behind_flags clock p (halted f printed) = some (halted f printed)
behind_flags clock p (known f printed) =
    Option.map (known f)
      (log_processor clock p (set_cpu_vendor_name p.vendor_ebx p.vendor_edx p.vendor_ecx) printed)

-- The whole of `set_cpu_vendor_name`, with the flags, the name and the log.
unfoldable pub detect :
    (clock : ℕ → Pointer) → Processor → CpuFeatures → List ℕ → Option FlagsOutcome
detect clock p f printed =
    elim (cpuflags clock (has_fpu p.fsw p.fcw) (has_eflag 0x200000 p.flags p.flags_flipped)
      p.features_edx f printed) [ none ↦ none | some o ↦ behind_flags clock p o ]
