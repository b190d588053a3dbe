-- ===== src/Cpu/Halting.antt =====
-- kern/cpu/cpu.c and kern/debug/crash_core.c: the number of a core, and the cores that are stopped.
use Prim.Native.Nat.{bit_and, bit_or}
use astral_os.Common.{
  ℕ, ◌+◌, ◌*◌, ◌/◌, ◌%◌, ◌^◌, ◌≤◌, ◌<◌, ◌≡◌, ◌≢◌, ◌⊎◌, inl, inr, refl, ap, ◌∙◌, arith, Bool-cases,
  leb, ◌==◌, ==_iff,
}
use astral_os.Common.Bits.{and_byte, bit_or-parts, bit_or-zero, zero_or}
use astral_os.Cpu.{
  halted, Cpu, Exit, returns, stops, set_cpu_state, cpu_disable_interrupts, cpu_get_core_id,
  cpu_set_state, check_and_halt_core, crash_core,
}

-- The number of a core is made of the affinity levels 0 and 2 of its register; level 1 has no part in it, so cores that
-- differ there alone have the same number.
pub cpu_get_core_id_lem :
    (mpidr : ℕ) → cpu_get_core_id mpidr ≡ mpidr % 256 + 256 * (mpidr / 2 ^ 16 % 256)
unfolding cpu_get_core_id
cpu_get_core_id_lem mpidr =
    let a = mpidr % 256 in
    let b = mpidr / 2 ^ 16 % 256 in
    let q = mpidr / 2 ^ 8 in
    let low : mpidr ≡ (q * 2 ^ 8 + a) * 2 ^ 0 + 0 = omega arith in
    let high : q ≡ (mpidr / 2 ^ 24 * 2 ^ 8 + b) * 2 ^ 8 + q % 256 = omega arith in
    let kept : bit_and mpidr 0xff ≡ a =
      ap (λ x. bit_and x 0xff) low ∙ and_byte 0 q a 0 (omega arith) (omega arith) ∙ omega arith in
    let kept' : bit_and q 0xff00 ≡ b * 2 ^ 8 =
      ap (λ x. bit_and x 0xff00) high
      ∙ and_byte 8 (mpidr / 2 ^ 24) b (q % 256) (omega arith) (omega arith) in
    let lower : a ≡ 0 * 2 ^ 8 + a = omega arith in
    let upper : b * 2 ^ 8 ≡ b * 2 ^ 8 + 0 = omega arith in
    let joined : bit_or a (b * 2 ^ 8) ≡ b * 2 ^ 8 + a =
      ap (λ x. bit_or x (b * 2 ^ 8)) lower
      ∙ ap (bit_or (0 * 2 ^ 8 + a)) upper
      ∙ bit_or-parts 8 0 b a 0 (omega arith) (omega arith)
      ∙ rw (zero_or b, bit_or-zero a) refl in
    rw (kept, kept') (joined ∙ omega arith)

-- The core with the number `core` is stopped for ever, with its state recorded and interrupts off.
abbrev pub Halts : Cpu → (core : ℕ) → Exit → Type 0
Halts c core r = r ≡ stops (cpu_disable_interrupts (set_cpu_state c core halted))

-- A core with a number from 1 to 7 is stopped for ever by `check_and_halt_core`, with its state recorded and interrupts
-- off; the core 0, and each core with a number from 8 on, goes on with nothing changed.
pub check_and_halt_core-Halts :
    (mpidr : ℕ) (c : Cpu)
    → ((0 < cpu_get_core_id mpidr)
        × (cpu_get_core_id mpidr < 8)
        × Halts c (cpu_get_core_id mpidr) (check_and_halt_core mpidr c))
      ⊎ (((cpu_get_core_id mpidr ≡ 0) ⊎ (8 ≤ cpu_get_core_id mpidr))
          × (check_and_halt_core mpidr c ≡ returns c))
unfolding check_and_halt_core cpu_set_state
check_and_halt_core-Halts mpidr c =
    let core = cpu_get_core_id mpidr in
    elim (Bool-cases (core == 0)) [
      | inl first ↦ inr (inl ((==_iff core 0).0 first), rw first refl)
      | inr other ↦ elim (Bool-cases (leb 8 core)) [
        | inl beyond ↦ inr (inr (ground arith), rw (other, beyond) refl)
        | inr within ↦ inl (ground arith, ground arith, rw (other, within) refl)
      ]
    ]

-- `crash_core` of a number below 8 on the core with this number stops the core for ever, with its state recorded and
-- interrupts off; of another number, or on another core, it returns with nothing changed.
pub crash_core-Halts :
    (mpidr : ℕ) (c : Cpu) (core_id : ℕ)
    → ((core_id < 8)
        × (cpu_get_core_id mpidr ≡ core_id)
        × Halts c core_id (crash_core mpidr c core_id))
      ⊎ (((8 ≤ core_id) ⊎ (cpu_get_core_id mpidr ≢ core_id))
          × (crash_core mpidr c core_id ≡ returns c))
unfolding crash_core cpu_set_state
crash_core-Halts mpidr c core_id =
    let core = cpu_get_core_id mpidr in
    elim (Bool-cases (leb 8 core_id)) [
      | inl beyond ↦ inr (inl (ground arith), rw beyond refl)
      | inr within ↦ elim (Bool-cases (core == core_id)) [
        | inl here ↦
            let e : core ≡ core_id = (==_iff core core_id).0 here in
            inl (ground arith, e, rw (within, here, e, within) refl)
        | inr elsewhere ↦ inr (inr (λ e. absurd (ground arith)), rw (within, elsewhere) refl)
      ]
    ]
