-- ===== src/Cpu/Panic.antt =====
-- kern/debug/crash_core.c, `crash_core_panic`: a message on the console, and then the core goes on no more. What the two
-- buffers of `kprintf_varg` hold before its call `k` is `stack k`.
use astral_os.Common.{ℕ, List, [], ◌∷◌, Option, some, ◌>>=◌, Bytes}
use astral_os.Strings.Format.{Arg}
use astral_os.Console.{Console, kprintf_varg}
use astral_os.Cpu.{Cpu, Exit, returns, waits, stops, halted, cpu_set_state}

-- "kernel panic: "
abbrev pub panic_text : List ℕ
panic_text =
    b'k' ∷ b'e' ∷ b'r' ∷ b'n' ∷ b'e' ∷ b'l' ∷ b' ' ∷ b'p' ∷ b'a' ∷ b'n' ∷ b'i' ∷ b'c' ∷ b':' ∷ b' '
    ∷ []

-- The loop at the end, when `cpu_set_state` returns.
abbrev pub then_spin : Exit → Exit
then_spin (returns c) = stops c
then_spin (waits c) = waits c
then_spin (stops c) = stops c

unfoldable pub crash_core_panic :
    (mpidr : ℕ) (stack : ℕ → Bytes × Bytes)
    → Console
    → Cpu
    → (fmt : List ℕ) → List Arg
    → Option (Console × Exit)
crash_core_panic mpidr stack console cpu fmt args =
    kprintf_varg console (stack 0).0 (stack 0).1 panic_text [] >>= (λ console.
      kprintf_varg console (stack 1).0 (stack 1).1 fmt args >>= (λ console.
        kprintf_varg console (stack 2).0 (stack 2).1 (b'\n' ∷ []) []
        >>= (λ console. some (console, then_spin (cpu_set_state mpidr cpu halted)))))
