-- ===== src/Kernel/Stopped.antt =====
-- kern/kernel.c: where the start of the kernel ends on each core.
use mathlib.Core.List.{append_assoc}
use astral_os.Common.{
  ℕ, suc, ◌*◌, ◌/◌, ◌%◌, ◌^◌, ◌≤◌, ◌<◌, ◌≡◌, ◌⊎◌, inl, inr, refl, ap, ◌∙◌, arith, true, false,
  Bool-cases, leb, ==_refl, List, [], ◌∷◌, ◌++◌, length, take, little_endian, some, ◌>>=◌, Bytes,
}
use astral_os.Console.{Console, kprintf_varg}
use astral_os.Console.Serial.{serial, sending, is_plain, kprintf_varg-serial}
use astral_os.Cpu.{
  Cpu, returns, stops, running, halted, set_cpu_state, cpu_disable_interrupts, cpu_get_core_id,
  cpu_set_state,
}
use astral_os.Cpu.Halting.{check_and_halt_core-Halts}
use astral_os.Cpu.Panic.{panic_text, then_spin, crash_core_panic}
use astral_os.Dtb.{dtb_init, literal, fb_node_path, fb_prop_name}
use astral_os.Dtb.Tree.{Token}
use astral_os.Dtb.Hidden.{IsTree, fb_node_path-IsString, dtb_get_property-null}
use astral_os.Memory.Kmalloc.{Heap, kmalloc}
use astral_os.Memory.PageTables.{Layout, Machine, page_size, cpu_enable_mmu}
use astral_os.Memory.PageTables.Blocks.{Outside}
use astral_os.Memory.PageTables.Maps.{Apart}
use astral_os.Memory.PageTables.Boot.{cpu_enable_mmu-Outside}
use astral_os.Memory.VmMaps.{vm_init}
use astral_os.Kernel.{
  Kernel, stopped, bytes_of, uart_init, no_framebuffer_text, with_framebuffer, with_machine,
  kernel_main,
}

cpu_set_state-running :
    (mpidr : ℕ) (c : Cpu) → (c' : Cpu) × (cpu_set_state mpidr c running ≡ returns c')
unfolding cpu_set_state
cpu_set_state-running mpidr c = elim (Bool-cases (leb 8 (cpu_get_core_id mpidr))) [
  | inl beyond ↦ (c, rw beyond refl)
  | inr within ↦ (set_cpu_state c (cpu_get_core_id mpidr) running, rw within refl)
]

-- The core is halted when it has a number below 8.
abbrev pub IsHalted : (core : ℕ) → Cpu → Type 0
IsHalted core c = (core < 8) → (c.cpu_states core ≡ halted) × (c.interrupts ≡ false)

then_spin-halted :
    (mpidr : ℕ) (c : Cpu)
    → (c' : Cpu) × (then_spin (cpu_set_state mpidr c halted) ≡ stops c')
      × IsHalted (cpu_get_core_id mpidr) c'
unfolding cpu_set_state
then_spin-halted mpidr c = elim (Bool-cases (leb 8 (cpu_get_core_id mpidr))) [
  | inl beyond ↦ (c, rw beyond refl, (λ lt. absurd (ground arith)))
  | inr within ↦ (
    cpu_disable_interrupts (set_cpu_state c (cpu_get_core_id mpidr) halted),
    rw within refl,
    (λ lt. (rw (==_refl (cpu_get_core_id mpidr)) refl, refl)),
  )
]

-- The message of a panic on the serial line.
abbrev pub panic_line : List ℕ → List ℕ
panic_line msg = serial panic_text ++ (serial msg ++ serial (b'\n' ∷ []))

-- Without a framebuffer, `crash_core_panic` of a text of fewer than 256 characters without a percent sign sends
-- "kernel panic: ", the text and a line feed to the serial line, and never returns; a core with a number below 8 is
-- halted with interrupts off.
pub crash_core_panic-stops :
    (mpidr : ℕ) (stack : ℕ → Bytes × Bytes) (console : Console) (cpu : Cpu) (msg : List ℕ)
    → is_plain msg ≡ true
    → take 255 msg ≡ msg
    → console.framebuffer ≡ 0
    → (cpu' : Cpu) × (crash_core_panic mpidr stack console cpu msg []
        ≡ some (sending console (console.sent ++ panic_line msg), stops cpu'))
      × IsHalted (cpu_get_core_id mpidr) cpu'
unfolding crash_core_panic is_plain
crash_core_panic-stops mpidr stack console cpu msg is_text short off =
    let (cpu', spun, is_halted) = then_spin-halted mpidr cpu in
    let one = sending console (console.sent ++ serial panic_text) in
    let two = sending one (one.sent ++ serial msg) in
    let first = kprintf_varg-serial console (stack 0).0 (stack 0).1 panic_text refl refl off in
    let second = kprintf_varg-serial one (stack 1).0 (stack 1).1 msg is_text short off in
    let third = kprintf_varg-serial two (stack 2).0 (stack 2).1 (b'\n' ∷ []) refl refl off in
    let joined : two.sent ++ serial (b'\n' ∷ []) ≡ console.sent ++ panic_line msg =
      append_assoc (console.sent ++ serial panic_text) (serial msg) (serial (b'\n' ∷ []))
      ∙ append_assoc console.sent (serial panic_text) (serial msg ++ serial (b'\n' ∷ [])) in
    (
      cpu',
      ap
            (λ r. r >>= (λ c. kprintf_varg c (stack 1).0 (stack 1).1 msg [] >>= (λ c.
              kprintf_varg c (stack 2).0 (stack 2).1 (b'\n' ∷ []) []
              >>= (λ c. some (c, then_spin (cpu_set_state mpidr cpu halted))))))
            first
          ∙ ap
              (λ r. r >>= (λ c.
                kprintf_varg c (stack 2).0 (stack 2).1 (b'\n' ∷ []) []
                >>= (λ c. some (c, then_spin (cpu_set_state mpidr cpu halted)))))
              second
          ∙ ap (λ r. r >>= (λ c. some (c, then_spin (cpu_set_state mpidr cpu halted)))) third
          ∙ ap (λ e. some (sending two (two.sent ++ serial (b'\n' ∷ [])), e)) spun
          ∙ ap (λ l. some (sending two l, stops cpu')) joined,
      is_halted,
    )

-- The byte at an address is in none of the tables that the start writes.
abbrev pub Away : Layout → (table a : ℕ) → Type 0
Away layout table a =
    let word = a / 8 * 8 in
    Outside layout.kernel_l1_page_table 0 512 word
    × Outside layout.kernel_l2_page_table 0 512 word
    × Outside table 0 512 word

-- On a core with a number from 1 to 7, `kernel_main` does no more than `uart_init` before the core is stopped for ever,
-- halted with interrupts off.
pub kernel_main-Halts :
    (view : Machine → Bytes) (fuel width mpidr : ℕ) (stack : ℕ → Bytes × Bytes) (layout : Layout)
    (exception_vectors dtb_addr : ℕ) (k : Kernel)
    → 0 < cpu_get_core_id mpidr
    → cpu_get_core_id mpidr < 8
    → (cpu' : Cpu) × (kernel_main view fuel width mpidr stack layout exception_vectors dtb_addr k
        ≡ some (stopped (record k { accesses = k.accesses ++ uart_init; cpu = cpu' })))
      × IsHalted (cpu_get_core_id mpidr) cpu'
unfolding kernel_main
kernel_main-Halts view fuel width mpidr stack layout exception_vectors dtb_addr k low high =
    elim (check_and_halt_core-Halts mpidr k.cpu) [
      | inr (other, e) ↦ absurd (ground arith)
      | inl (l, h, e) ↦ (
        cpu_disable_interrupts (set_cpu_state k.cpu (cpu_get_core_id mpidr) halted),
        rw e refl,
        λ lt. (rw (==_refl (cpu_get_core_id mpidr)) refl, refl),
      )
    ]

module _ (view : Machine → Bytes) (fuel width mpidr : ℕ) (stack : ℕ → Bytes × Bytes)
    (layout : Layout) (exception_vectors dtb_addr : ℕ) (k : Kernel) (table : ℕ) (heap : Heap)
    (ts : List Token) where
  -- On a core with the number 0 or one from 8 on, let there be no framebuffer yet, the table that `kmalloc` returns be at the
  -- start of a page, the pages of the three tables not meet, and with the translation of `cpu_enable_mmu` each address
  -- below 2^30 read as itself. Let memory below 2^30 and away from the tables hold a device tree of fewer than 2^31 tokens, whose root has the empty name and whose other nodes have names that are not empty and do not begin with
  -- `@`, with fuel above its tokens and a bound of at most 2^31 above its strings. Then, whatever the tree holds,
  -- `kernel_main` stops for ever with the panic's message on the serial line: the console has no framebuffer, no device is
  -- accessed after `uart_init` but the serial line, and a core with a number below 8 is halted with interrupts off.
  pub kernel_main-panics :
      (cpu_get_core_id mpidr ≡ 0) ⊎ (8 ≤ cpu_get_core_id mpidr)
      → k.console.framebuffer ≡ 0
      → table % page_size ≡ 0
      → Apart layout.kernel_l1_page_table layout.kernel_l2_page_table
      → Apart layout.kernel_l1_page_table table
      → Apart layout.kernel_l2_page_table table
      → kmalloc k.machine.heap page_size ≡ some (table, heap)
      → ((m' : Machine)
          → cpu_enable_mmu layout k.machine ≡ some m'
          → (a : ℕ) → a < 2 ^ 30
          → view m' a ≡ bytes_of m'.words a)
      → ((m : Bytes)
          → ((a : ℕ) → a < 2 ^ 30 → Away layout table a → m a ≡ bytes_of k.machine.words a)
          → IsTree m width (dtb_init m k.dtb dtb_addr) ts)
      → 7 < width
      → width ≤ 2 ^ 31
      → length ts < 2 ^ 31
      → suc (length ts) < fuel
      → (k' : Kernel) × (kernel_main view fuel width mpidr stack layout exception_vectors dtb_addr k
          ≡ some (stopped k'))
        × (k'.console ≡ sending k.console (k.console.sent ++ panic_line no_framebuffer_text))
        × (k'.accesses ≡ k.accesses ++ uart_init)
        × IsHalted (cpu_get_core_id mpidr) k'.cpu
  unfolding kernel_main with_machine with_framebuffer is_plain
  kernel_main-panics core off page apart apart1 apart2 got flat tree wide fits small enough =
      let (machine, on, same) =
        cpu_enable_mmu-Outside layout k.machine table heap page apart apart1 apart2 got in
      let memory = view machine in
      let is_tree = tree memory (λ a low away.
        flat machine on a low
        ∙ ap (λ w. little_endian w (a % 8)) (same (a / 8 * 8) away.0 away.1 away.2)) in
      let null =
        dtb_get_property-null fuel width memory (dtb_init memory k.dtb dtb_addr) ts
          (literal fb_node_path) (literal fb_prop_name) b'c' (b'h' ∷ b'o' ∷ b's' ∷ b'e' ∷ b'n' ∷ [])
          is_tree fb_node_path-IsString (omega arith) fits small enough in
      let (cpu', run) = cpu_set_state-running mpidr k.cpu in
      let (cpu'', panics, is_halted) =
        crash_core_panic-stops mpidr stack k.console cpu' no_framebuffer_text refl refl off in
      elim (check_and_halt_core-Halts mpidr k.cpu) [
        | inl (l, h, e) ↦ absurd (ground arith)
        | inr (other, e) ↦ (
          record k {
            accesses = k.accesses ++ uart_init;
            vbar_el1 = exception_vectors;
            vm = vm_init k.vm;
            machine = machine;
            dtb = dtb_init memory k.dtb dtb_addr;
            console = sending k.console (k.console.sent ++ panic_line no_framebuffer_text);
            cpu = cpu'';
          },
          rw (e, run, on, null, panics) refl,
          refl,
          refl,
          is_halted,
        )
      ]
