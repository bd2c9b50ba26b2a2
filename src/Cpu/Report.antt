-- ===== src/Cpu/Report.antt =====
-- About the whole of `set_cpu_vendor_name` in root/orbit-kernel/util/cpu.c.
use Prim.Native.Nat.{bit_and}
use relics.Prelude.{
  codes, ℕ, ◌≡◌, refl, ap, ◌∙◌, inl, inr, Bool, true, false, not, ◌&&◌, ◌==◌, Bool-cases, if-true,
  if-false, if◌then◌else◌, Option, none, some, List, [], ◌∷◌, ◌++◌,
}
use mathlib.Core.Option
use mathlib.Core.Path.{subst}
use relics.Kio.Format.Text.{append-nil, is_literal, is_literal_sound}
use relics.Kio.Format.Pieces.{Piece, plain, characters, in_base, hex, meant, are_pieces_sound}
use relics.Kio.Log.{Pointer, log_printk}
use relics.Kio.Log.Time.{stamp, log_printk-pieces}
use relics.Cpu.Bits.{edx_bit, edx_sse, edx_fxsr}
use relics.Cpu.Table.{cpuidstruct_ecx, cpuidstruct_edx}
use relics.Cpu.Features.{names, remaining_features-lists}
use relics.Cpu.{
  ModelFamilyStepping, model_family_stepping, log_model, CpuFeatures, FlagsOutcome, halted, known,
  has_sse, flags_behind_sse, cpuflags, remaining_features, Processor, set_cpu_vendor_name, has_fpu,
  has_eflag, until_nul, log_processor, behind_flags, detect,
}

-- A line of the log behind what is printed.
abbrev pub logged : (time : Pointer) (line : List ℕ) → List ℕ → List ℕ
logged time line printed = (printed ++ stamp time) ++ line

log_printk-line :
    (time : Pointer) (line printed : List ℕ)
    → is_literal line ≡ true
    → log_printk (some time) printed line [] ≡ some (logged time line printed)
log_printk-line time line printed h =
    subst (λ l. log_printk (some time) printed l [] ≡ some (logged time l printed))
      (append-nil line)
      (log_printk-pieces time printed (plain line ∷ []) [] (is_literal_sound line h, tt))

-- The registers have the bits of SSE and of FXSR.
abbrev pub sse_found : (d : ℕ) → Bool
sse_found d = not (bit_and d (edx_bit edx_sse) == 0) && not (bit_and d (edx_bit edx_fxsr) == 0)

-- What the test of SSE leaves in the log.
abbrev pub sse_logged : (clock : ℕ → Pointer) (d : ℕ) → List ℕ → List ℕ
sse_logged clock d printed =
    if sse_found d
    then logged (clock 2) (codes "SSE available\n") printed
    else logged (clock 1) (codes "Something went wrong with the SSE process\n") printed

has_sse-found :
    (time : Pointer) (d : ℕ) (printed : List ℕ)
    → sse_found d ≡ true
    → has_sse time d printed ≡ some (true, printed)
unfolding has_sse
has_sse-found time d printed h = if-true _ _ h

has_sse-missing :
    (time : Pointer) (d : ℕ) (printed : List ℕ)
    → sse_found d ≡ false
    → has_sse time d printed
      ≡ some (false, logged time (codes "Something went wrong with the SSE process\n") printed)
unfolding has_sse
has_sse-missing time d printed h =
    if-false _ _ h
    ∙ ap (Option.map (λ t. (false, t)))
        (log_printk-line time (codes "Something went wrong with the SSE process\n") printed refl)

-- The members that are set, and how `cpuflags` ends with them.
abbrev pub ended : (id_flag sse : Bool) → CpuFeatures → List ℕ → FlagsOutcome
ended id_flag sse f printed =
    let g : CpuFeatures = record {
      fpu = f.fpu;
      cpuid = f.cpuid;
      sse = if sse then true else f.sse;
    } in
    if id_flag then known (record g { cpuid = true }) printed else halted g printed

flags_behind_sse-ended :
    (time : Pointer) (id_flag sse : Bool) (f : CpuFeatures) (printed : List ℕ)
    → flags_behind_sse time id_flag sse f printed
      ≡ some (
          ended id_flag sse f
            (if sse then logged time (codes "SSE available\n") printed else printed))
unfolding flags_behind_sse
flags_behind_sse-ended time id_flag true f printed =
    let go : Option (List ℕ) → Option FlagsOutcome =
      λ o. elim o [ none ↦ none | some out ↦ some (ended id_flag true f out) ] in
    ap go (log_printk-line time (codes "SSE available\n") printed refl)
flags_behind_sse-ended time id_flag false f printed = refl

has_sse-logs :
    (clock : ℕ → Pointer) (id_flag : Bool) (d : ℕ) (f : CpuFeatures) (printed : List ℕ)
    → (elim (has_sse (clock 1) d printed) [
      | none ↦ none
      | some (sse, out) ↦ flags_behind_sse (clock 2) id_flag sse f out
    ])
      ≡ some (ended id_flag (sse_found d) f (sse_logged clock d printed))
has_sse-logs clock id_flag d f printed =
    let go : Option (Bool × List ℕ) → Option FlagsOutcome = λ o. elim o [
      | none ↦ none
      | some (sse, out) ↦ flags_behind_sse (clock 2) id_flag sse f out
    ] in
    elim (Bool-cases (sse_found d)) [
      | inl found ↦ rw found (
          ap go (has_sse-found (clock 1) d printed found)
          ∙ flags_behind_sse-ended (clock 2) id_flag true f printed)
      | inr missing ↦ rw missing (
          ap go (has_sse-missing (clock 1) d printed missing)
          ∙ flags_behind_sse-ended (clock 2) id_flag false f _)
    ]

-- How `cpuflags` ends: it halts without a floating point unit or without `cpuid`, or else the three
-- members are set.
abbrev pub flags_outcome :
    (clock : ℕ → Pointer) (fpu id_flag : Bool) (d : ℕ) → CpuFeatures → List ℕ → FlagsOutcome
flags_outcome clock fpu id_flag d f printed =
    if fpu
    then ended id_flag (sse_found d) (record f { fpu = true })
        (sse_logged clock d (logged (clock 0) (codes "FPU available\n") printed))
    else halted f (logged (clock 0) (codes "No FPU available; halting\n") printed)

cpuflags-outcome :
    (clock : ℕ → Pointer) (fpu id_flag : Bool) (d : ℕ) (f : CpuFeatures) (printed : List ℕ)
    → cpuflags clock fpu id_flag d f printed ≡ some (flags_outcome clock fpu id_flag d f printed)
unfolding cpuflags
cpuflags-outcome clock true id_flag d f printed =
    rw (log_printk-line (clock 0) (codes "FPU available\n") printed refl) (
      has_sse-logs clock id_flag d (record f { fpu = true })
        (logged (clock 0) (codes "FPU available\n") printed))
cpuflags-outcome clock false id_flag d f printed =
    rw (log_printk-line (clock 0) (codes "No FPU available; halting\n") printed refl) refl

-- The line of the vendor and the line of the model, as pieces.
abbrev pub vendor_line : List ℕ → List Piece
vendor_line name =
    plain (codes "CPU Vendor: ") ∷ characters (until_nul name) ∷ plain (codes "\n") ∷ []

abbrev pub model_line : ModelFamilyStepping → List Piece
model_line m =
    plain (codes "CPU Model=")
    ∷ in_base hex m.model
    ∷ plain (codes " Family=")
    ∷ in_base hex m.family
    ∷ plain (codes " Stepping=")
    ∷ in_base hex m.processor_stepping
    ∷ plain (codes "\n")
    ∷ []

-- The three lines behind the flags.
abbrev pub processor_logged : (clock : ℕ → Pointer) → Processor → List ℕ → List ℕ → List ℕ
processor_logged clock p name printed =
    let first = logged (clock 3) (meant (vendor_line name)) printed in
    let second = logged (clock 4) (meant (model_line (model_family_stepping p.signature))) first in
    (second ++ (stamp (clock 5) ++ codes "Cpu features: "))
    ++ (names p.features_ecx cpuidstruct_ecx
        ++ (names p.features_ecx cpuidstruct_edx ++ codes "\n"))

log_processor-lines :
    (clock : ℕ → Pointer) (p : Processor) (name printed : List ℕ)
    → log_processor clock p name printed ≡ some (processor_logged clock p name printed)
unfolding log_processor log_model
log_processor-lines clock p name printed =
    let first = logged (clock 3) (meant (vendor_line name)) printed in
    let model = model_line (model_family_stepping p.signature) in
    let features : Option (List ℕ) → Option (List ℕ) = λ o. elim o [
      | none ↦ none
      | some out ↦ remaining_features (clock 5) p.features_ecx p.features_edx out
    ] in
    let lines : Option (List ℕ) → Option (List ℕ) =
      λ o. elim o [ none ↦ none | some out ↦ features (log_model (clock 4) p.signature out) ] in
    ap lines (
      log_printk-pieces (clock 3) printed (vendor_line name) []
        (are_pieces_sound (vendor_line name) refl))
    ∙ ap features (log_printk-pieces (clock 4) first model [] (are_pieces_sound model refl))
    ∙ remaining_features-lists (clock 5) p.features_ecx p.features_edx
        (logged (clock 4) (meant model) first)

-- What the outcome of `cpuflags` becomes.
abbrev pub reported : (clock : ℕ → Pointer) → Processor → FlagsOutcome → FlagsOutcome
reported clock p (halted f printed) = halted f printed
reported clock p (known f printed) =
    known f (
      processor_logged clock p (set_cpu_vendor_name p.vendor_ebx p.vendor_edx p.vendor_ecx) printed)

behind_flags-reported :
    (clock : ℕ → Pointer) (p : Processor) (o : FlagsOutcome)
    → behind_flags clock p o ≡ some (reported clock p o)
unfolding behind_flags
behind_flags-reported clock p (halted f printed) = refl
behind_flags-reported clock p (known f printed) =
    ap (Option.map (known f)) (log_processor-lines clock p _ printed)

pub detect-reports :
    (clock : ℕ → Pointer) (p : Processor) (f : CpuFeatures) (printed : List ℕ)
    → detect clock p f printed
      ≡ some (
          reported clock p (
            flags_outcome clock
              (has_fpu p.fsw p.fcw)
              (has_eflag 0x200000 p.flags p.flags_flipped)
              p.features_edx
              f
              printed))
unfolding detect
detect-reports clock p f printed =
    let go : Option FlagsOutcome → Option FlagsOutcome =
      λ o. elim o [ none ↦ none | some o' ↦ behind_flags clock p o' ] in
    ap go (
      cpuflags-outcome clock (has_fpu p.fsw p.fcw) (has_eflag 0x200000 p.flags p.flags_flipped)
        p.features_edx f printed)
    ∙ behind_flags-reported clock p _
