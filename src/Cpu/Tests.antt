-- ===== src/Cpu/Tests.antt =====
-- The cores of kern/cpu/cpu.c and kern/debug/crash_core.c at some registers.
use astral_os.Common.{◌<◌, ◌≤◌, ◌≡◌, ◌⊎◌, refl, true}
use astral_os.Cpu.{Cpu, running, returns, cpu_get_core_id, check_and_halt_core}
use astral_os.Cpu.Halting.{Halts, check_and_halt_core-Halts}

abbrev start : Cpu
start = record { cpu_states = λ i. running; interrupts = true }

second_cluster : cpu_get_core_id 0x80000100 ≡ 0
unfolding cpu_get_core_id
second_cluster = refl

check_and_halt_core-Halts_example :
    ((0 < cpu_get_core_id 3)
      × (cpu_get_core_id 3 < 8)
      × Halts start (cpu_get_core_id 3) (check_and_halt_core 3 start))
    ⊎ (((cpu_get_core_id 3 ≡ 0) ⊎ (8 ≤ cpu_get_core_id 3))
        × (check_and_halt_core 3 start ≡ returns start))
check_and_halt_core-Halts_example = check_and_halt_core-Halts 3 start
