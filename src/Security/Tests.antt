-- ===== src/Security/Tests.antt =====
-- The theorem on kern/security/security.c at a table with one mapping.
use astral_os.Common.{[], ◌∷◌, arith}
use astral_os.Memory.VmMaps.{Vm, entry}
use astral_os.Security.{Enforced, security_enforce_wx, security_enforce_wx-Enforced}

abbrev code_page : Vm
code_page = record { vm_map_entries = entry 0x1000 0x8000 0x1000 7 ∷ []; tlb_flushes = 0 }

security_enforce_wx-Enforced_example :
    Enforced code_page 0x1000 7 (security_enforce_wx code_page 0x1000 0 7)
security_enforce_wx-Enforced_example =
    security_enforce_wx-Enforced code_page 0x1000 0 7 (λ used. omega arith, tt, tt)
