-- ===== src/Cpu/Table.antt =====
-- The names of the features in root/orbit-kernel/util/cpu.c, with their bits.
use relics.Prelude.{codes, ℕ, List, [], ◌∷◌}
use relics.Cpu.Bits.{
  ecx_bit, edx_bit, ecx_sse3, ecx_pclmul, ecx_dtes64, ecx_monitor, ecx_ds_cpl, ecx_vmx, ecx_smx,
  ecx_est, ecx_tm2, ecx_ssse3, ecx_cid, ecx_sdbg, ecx_fma, ecx_cx16, ecx_xtpr, ecx_pdcm, ecx_pcid,
  ecx_dca, ecx_sse4_1, ecx_sse4_2, ecx_x2apic, ecx_movbe, ecx_popcnt, ecx_tsc, ecx_aes, ecx_xsave,
  ecx_osxsave, ecx_avx, ecx_f16c, ecx_rdrand, ecx_hypervisor, edx_fpu, edx_vme, edx_de, edx_pse,
  edx_tsc, edx_msr, edx_pae, edx_mce, edx_cx8, edx_apic, edx_sep, edx_mtrr, edx_pge, edx_mca,
  edx_cmov, edx_pat, edx_pse36, edx_psn, edx_clflush, edx_ds, edx_acpi, edx_mmx, edx_fxsr, edx_sse,
  edx_sse2, edx_ss, edx_htt, edx_tm, edx_ia64, edx_pbe,
}

-- A bit and its name.
abbrev pub Feature : Type 0
Feature = ℕ × List ℕ

abbrev pub cpuidstruct_ecx : List Feature
cpuidstruct_ecx =
    (ecx_bit ecx_sse3, codes "sse3")
    ∷ (ecx_bit ecx_pclmul, codes "pclmul")
    ∷ (ecx_bit ecx_dtes64, codes "dtes64")
    ∷ (ecx_bit ecx_monitor, codes "monitor")
    ∷ (ecx_bit ecx_ds_cpl, codes "ds_cpl")
    ∷ (ecx_bit ecx_vmx, codes "vmx")
    ∷ (ecx_bit ecx_smx, codes "smx")
    ∷ (ecx_bit ecx_est, codes "est")
    ∷ (ecx_bit ecx_tm2, codes "tm2")
    ∷ (ecx_bit ecx_ssse3, codes "ssse3")
    ∷ (ecx_bit ecx_cid, codes "cid")
    ∷ (ecx_bit ecx_sdbg, codes "sdbg")
    ∷ (ecx_bit ecx_fma, codes "fma")
    ∷ (ecx_bit ecx_cx16, codes "cx16")
    ∷ (ecx_bit ecx_xtpr, codes "xtpr")
    ∷ (ecx_bit ecx_pdcm, codes "pdcm")
    ∷ (ecx_bit ecx_pcid, codes "pcid")
    ∷ (ecx_bit ecx_dca, codes "dca")
    ∷ (ecx_bit ecx_sse4_1, codes "sse4_1")
    ∷ (ecx_bit ecx_sse4_2, codes "sse4_2")
    ∷ (ecx_bit ecx_x2apic, codes "x2apic")
    ∷ (ecx_bit ecx_movbe, codes "movbe")
    ∷ (ecx_bit ecx_popcnt, codes "popcnt")
    ∷ (ecx_bit ecx_tsc, codes "tsc")
    ∷ (ecx_bit ecx_aes, codes "aes")
    ∷ (ecx_bit ecx_xsave, codes "xsave")
    ∷ (ecx_bit ecx_osxsave, codes "osxsave")
    ∷ (ecx_bit ecx_avx, codes "avx")
    ∷ (ecx_bit ecx_f16c, codes "f16c")
    ∷ (ecx_bit ecx_rdrand, codes "rdrand")
    ∷ (ecx_bit ecx_hypervisor, codes "hypervisor")
    ∷ []

-- The last of the 31 cells is empty.
abbrev pub cpuidstruct_edx : List Feature
cpuidstruct_edx =
    (edx_bit edx_fpu, codes "fpu")
    ∷ (edx_bit edx_vme, codes "vme")
    ∷ (edx_bit edx_de, codes "de")
    ∷ (edx_bit edx_pse, codes "pse")
    ∷ (edx_bit edx_tsc, codes "tsc")
    ∷ (edx_bit edx_msr, codes "msr")
    ∷ (edx_bit edx_pae, codes "pae")
    ∷ (edx_bit edx_mce, codes "mce")
    ∷ (edx_bit edx_cx8, codes "cx8")
    ∷ (edx_bit edx_apic, codes "apic")
    ∷ (edx_bit edx_sep, codes "sep")
    ∷ (edx_bit edx_mtrr, codes "mtrr")
    ∷ (edx_bit edx_pge, codes "pge")
    ∷ (edx_bit edx_mca, codes "mca")
    ∷ (edx_bit edx_cmov, codes "cmov")
    ∷ (edx_bit edx_pat, codes "pat")
    ∷ (edx_bit edx_pse36, codes "pse36")
    ∷ (edx_bit edx_psn, codes "psn")
    ∷ (edx_bit edx_clflush, codes "clflush")
    ∷ (edx_bit edx_ds, codes "ds")
    ∷ (edx_bit edx_acpi, codes "acpi")
    ∷ (edx_bit edx_mmx, codes "mmx")
    ∷ (edx_bit edx_fxsr, codes "fxsr")
    ∷ (edx_bit edx_sse, codes "sse")
    ∷ (edx_bit edx_sse2, codes "sse2")
    ∷ (edx_bit edx_ss, codes "ss")
    ∷ (edx_bit edx_htt, codes "htt")
    ∷ (edx_bit edx_tm, codes "tm")
    ∷ (edx_bit edx_ia64, codes "ia64")
    ∷ (edx_bit edx_pbe, codes "pbe")
    ∷ (0, [])
    ∷ []
