-- ===== src/Cpu.antt =====
-- kern/cpu/cpu.c and kern/debug/crash_core.c: the states of the cores, and which cores are stopped. The register
-- `mpidr_el1` is an argument; a function that may wait for ever says so in its result.
pub mod Halting
pub mod Panic
mod Tests
use Prim.Native.Nat.{bit_and, bit_or}
use astral_os.Common.{
  ℕ, zero, suc, ◌/◌, ◌^◌, Bool, true, false, if◌then◌else◌, ltb, leb, ◌==◌, not, store,
}

pub data CpuState : Type 0 where
  idle : CpuState
  running : CpuState
  halted : CpuState

abbrev pub max_cores : ℕ
max_cores = 8

-- `cpu_states`, by core, and whether interrupts are enabled on the core that runs.
pub record Cpu : Type 0 where
  pub cpu_states : ℕ → CpuState
  pub interrupts : Bool

-- How a function ends: it returns, it waits until another core changes the state, or it waits for ever.
pub data Exit : Type 0 where
  returns : Cpu → Exit
  waits : Cpu → Exit
  stops : Cpu → Exit

abbrev pub set_cpu_state : Cpu → (core_id : ℕ) → CpuState → Cpu
set_cpu_state c core_id state = record c {
  cpu_states = λ i. if i == core_id then state else c.cpu_states i;
}

abbrev pub cpu_disable_interrupts : Cpu → Cpu
cpu_disable_interrupts c = record c { interrupts = false }

abbrev pub cpu_enable_interrupts : Cpu → Cpu
cpu_enable_interrupts c = record c { interrupts = true }

unfoldable pub cpu_get_core_id : (mpidr : ℕ) → ℕ
cpu_get_core_id mpidr = bit_or (bit_and mpidr 0xff) (bit_and (mpidr / 2 ^ 8) 0xff00)

-- The `switch` on the new state.
abbrev pub after_state : Cpu → CpuState → Exit
after_state c idle = waits c
after_state c halted = stops (cpu_disable_interrupts c)
after_state c running = returns c

unfoldable pub cpu_set_state : (mpidr : ℕ) → Cpu → CpuState → Exit
cpu_set_state mpidr c state =
    let core_id = cpu_get_core_id mpidr in
    if leb max_cores core_id then returns c else after_state (set_cpu_state c core_id state) state

unfoldable pub cpu_get_state : (mpidr : ℕ) → Cpu → CpuState
cpu_get_state mpidr c =
    let core_id = cpu_get_core_id mpidr in
    if ltb core_id max_cores then c.cpu_states core_id else running

unfoldable pub check_and_halt_core : (mpidr : ℕ) → Cpu → Exit
check_and_halt_core mpidr c =
    let core_id = cpu_get_core_id mpidr in
    if not (core_id == 0) then cpu_set_state mpidr c halted else returns c

unfoldable pub crash_core : (mpidr : ℕ) → Cpu → (core_id : ℕ) → Exit
crash_core mpidr c core_id =
    if leb max_cores core_id
    then returns c
    else if cpu_get_core_id mpidr == core_id
    then cpu_set_state mpidr c halted
    else returns c
