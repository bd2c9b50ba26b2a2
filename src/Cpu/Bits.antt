-- ===== src/Cpu/Bits.antt =====
-- The feature bits of root/orbit-kernel/cpu.h, as types with a constructor for each name.
use relics.Prelude.{ℕ, ◌^◌}

pub data EcxFeature : Type 0 where
  ecx_sse3 : EcxFeature
  ecx_pclmul : EcxFeature
  ecx_dtes64 : EcxFeature
  ecx_monitor : EcxFeature
  ecx_ds_cpl : EcxFeature
  ecx_vmx : EcxFeature
  ecx_smx : EcxFeature
  ecx_est : EcxFeature
  ecx_tm2 : EcxFeature
  ecx_ssse3 : EcxFeature
  ecx_cid : EcxFeature
  ecx_sdbg : EcxFeature
  ecx_fma : EcxFeature
  ecx_cx16 : EcxFeature
  ecx_xtpr : EcxFeature
  ecx_pdcm : EcxFeature
  ecx_pcid : EcxFeature
  ecx_dca : EcxFeature
  ecx_sse4_1 : EcxFeature
  ecx_sse4_2 : EcxFeature
  ecx_x2apic : EcxFeature
  ecx_movbe : EcxFeature
  ecx_popcnt : EcxFeature
  ecx_tsc : EcxFeature
  ecx_aes : EcxFeature
  ecx_xsave : EcxFeature
  ecx_osxsave : EcxFeature
  ecx_avx : EcxFeature
  ecx_f16c : EcxFeature
  ecx_rdrand : EcxFeature
  ecx_hypervisor : EcxFeature

abbrev pub ecx_bit : EcxFeature → ℕ
ecx_bit ecx_sse3 = 2 ^ 0
ecx_bit ecx_pclmul = 2 ^ 1
ecx_bit ecx_dtes64 = 2 ^ 2
ecx_bit ecx_monitor = 2 ^ 3
ecx_bit ecx_ds_cpl = 2 ^ 4
ecx_bit ecx_vmx = 2 ^ 5
ecx_bit ecx_smx = 2 ^ 6
ecx_bit ecx_est = 2 ^ 7
ecx_bit ecx_tm2 = 2 ^ 8
ecx_bit ecx_ssse3 = 2 ^ 9
ecx_bit ecx_cid = 2 ^ 10
ecx_bit ecx_sdbg = 2 ^ 11
ecx_bit ecx_fma = 2 ^ 12
ecx_bit ecx_cx16 = 2 ^ 13
ecx_bit ecx_xtpr = 2 ^ 14
ecx_bit ecx_pdcm = 2 ^ 15
ecx_bit ecx_pcid = 2 ^ 17
ecx_bit ecx_dca = 2 ^ 18
ecx_bit ecx_sse4_1 = 2 ^ 19
ecx_bit ecx_sse4_2 = 2 ^ 20
ecx_bit ecx_x2apic = 2 ^ 21
ecx_bit ecx_movbe = 2 ^ 22
ecx_bit ecx_popcnt = 2 ^ 23
ecx_bit ecx_tsc = 2 ^ 24
ecx_bit ecx_aes = 2 ^ 25
ecx_bit ecx_xsave = 2 ^ 26
ecx_bit ecx_osxsave = 2 ^ 27
ecx_bit ecx_avx = 2 ^ 28
ecx_bit ecx_f16c = 2 ^ 29
ecx_bit ecx_rdrand = 2 ^ 30
ecx_bit ecx_hypervisor = 2 ^ 31

pub data EdxFeature : Type 0 where
  edx_fpu : EdxFeature
  edx_vme : EdxFeature
  edx_de : EdxFeature
  edx_pse : EdxFeature
  edx_tsc : EdxFeature
  edx_msr : EdxFeature
  edx_pae : EdxFeature
  edx_mce : EdxFeature
  edx_cx8 : EdxFeature
  edx_apic : EdxFeature
  edx_sep : EdxFeature
  edx_mtrr : EdxFeature
  edx_pge : EdxFeature
  edx_mca : EdxFeature
  edx_cmov : EdxFeature
  edx_pat : EdxFeature
  edx_pse36 : EdxFeature
  edx_psn : EdxFeature
  edx_clflush : EdxFeature
  edx_ds : EdxFeature
  edx_acpi : EdxFeature
  edx_mmx : EdxFeature
  edx_fxsr : EdxFeature
  edx_sse : EdxFeature
  edx_sse2 : EdxFeature
  edx_ss : EdxFeature
  edx_htt : EdxFeature
  edx_tm : EdxFeature
  edx_ia64 : EdxFeature
  edx_pbe : EdxFeature

abbrev pub edx_bit : EdxFeature → ℕ
edx_bit edx_fpu = 2 ^ 0
edx_bit edx_vme = 2 ^ 1
edx_bit edx_de = 2 ^ 2
edx_bit edx_pse = 2 ^ 3
edx_bit edx_tsc = 2 ^ 4
edx_bit edx_msr = 2 ^ 5
edx_bit edx_pae = 2 ^ 6
edx_bit edx_mce = 2 ^ 7
edx_bit edx_cx8 = 2 ^ 8
edx_bit edx_apic = 2 ^ 9
edx_bit edx_sep = 2 ^ 11
edx_bit edx_mtrr = 2 ^ 12
edx_bit edx_pge = 2 ^ 13
edx_bit edx_mca = 2 ^ 14
edx_bit edx_cmov = 2 ^ 15
edx_bit edx_pat = 2 ^ 16
edx_bit edx_pse36 = 2 ^ 17
edx_bit edx_psn = 2 ^ 18
edx_bit edx_clflush = 2 ^ 19
edx_bit edx_ds = 2 ^ 21
edx_bit edx_acpi = 2 ^ 22
edx_bit edx_mmx = 2 ^ 23
edx_bit edx_fxsr = 2 ^ 24
edx_bit edx_sse = 2 ^ 25
edx_bit edx_sse2 = 2 ^ 26
edx_bit edx_ss = 2 ^ 27
edx_bit edx_htt = 2 ^ 28
edx_bit edx_tm = 2 ^ 29
edx_bit edx_ia64 = 2 ^ 30
edx_bit edx_pbe = 2 ^ 31
