-- ===== src/Kernel/Tests.antt =====
-- The start of kern/kernel.c with the device tree at 4096, and the null page for the framebuffer's table.
use astral_os.Common.{
  ℕ, zero, suc, ◌+◌, ◌-◌, ◌&&◌, ◌*◌, ◌/◌, ◌%◌, ◌^◌, ◌<◌, ◌≡◌, inl, inr, refl, sym, ap, subst, ◌∙◌,
  arith, Bool, true, Bool-cases, ltb, List, [], ◌∷◌, ◌++◌, get_or, none, some, Bytes, zeros, get64,
  little_endian, within,
}
use astral_os.BlockDevice.{type_none}
use astral_os.Console.Serial.{sending}
use astral_os.Cpu.{Cpu, idle, cpu_get_core_id}
use astral_os.Dtb.{dtb_init}
use astral_os.Dtb.Hidden.{IsTree}
use astral_os.Dtb.Tests.{blob, around, none_before, dtb_init_run, tree, tree-IsTree}
use astral_os.Memory.PageTables.{Machine, cpu_enable_mmu}
use astral_os.Memory.PageTables.Walk.{walk, normal}
use astral_os.Memory.PageTables.Maps.{boot_map}
use astral_os.Memory.PageTables.Boot.{cpu_enable_mmu-walk}
use astral_os.Memory.PageTables.Tests.{layout, no_heap, reset, kmalloc_at_reset}
use astral_os.Kernel.{Kernel, stopped, bytes_of, uart_init, no_framebuffer_text, kernel_main}
use astral_os.Kernel.Stopped.{Away, IsHalted, panic_line, kernel_main-Halts, kernel_main-panics}

abbrev start : Kernel
start = record {
  cpu = record { cpu_states = λ i. idle; interrupts = true };
  vm = record { vm_map_entries = []; tlb_flushes = 0 };
  machine = record reset { words = λ a. get64 (around zeros) a };
  dtb = none_before;
  console = record {
    framebuffer = 0;
    fb_width = 0;
    fb_height = 0;
    fb_pitch = 0;
    cursor_x = 0;
    cursor_y = 0;
    screen = zeros;
    sent = [];
  };
  accesses = [];
  vbar_el1 = 0;
  active_block_device_type = type_none;
}

-- What the core reads, by the walk of the tables.
abbrev through : Machine → Bytes
through m a = elim (walk m a) [ none ↦ 0 | some t ↦ bytes_of m.words t.pa ]

-- The first gigabyte reads as itself.
through-low :
    (m' : Machine)
    → cpu_enable_mmu layout start.machine ≡ some m'
    → (a : ℕ) → a < 2 ^ 30
    → through m' a ≡ bytes_of m'.words a
through-low m' on a low =
    let (m'', on', maps) =
      cpu_enable_mmu-walk layout start.machine 0 no_heap (refl, omega arith) (refl, omega arith)
        (refl, omega arith) (inl (omega arith)) (inr (omega arith)) (inr (omega arith))
        kmalloc_at_reset in
    let same : m'' ≡ m' = ap (λ o. (elim o [ none ↦ m' | some x ↦ x ])) (sym on' ∙ on) in
    let below : ltb a (2 ^ 39) ≡ true = ground arith in
    let itself : a % 2 ^ 30 ≡ a = omega arith in
    let map : walk m' a ≡ normal a =
      subst (λ m. walk m a ≡ boot_map a) same (maps a (omega arith)) ∙ rw (below, itself) refl in
    rw (through, map) refl

no_buffers : ℕ → Bytes × Bytes
no_buffers k = (zeros, zeros)

kernel_main-Halts_example :
    (cpu' : Cpu) × (kernel_main through 10 32 3 no_buffers layout 0x80000 4096 start
      ≡ some (stopped (record start { accesses = start.accesses ++ uart_init; cpu = cpu' })))
    × IsHalted (cpu_get_core_id 3) cpu'
unfolding cpu_get_core_id
kernel_main-Halts_example =
    kernel_main-Halts through 10 32 3 no_buffers layout 0x80000 4096 start (omega arith)
      (omega arith)

-- A word that is made of bytes holds them.
byte_of_word :
    (f : Bytes) (p i : ℕ) → ((a : ℕ) → f a < 256) → i < 8 → little_endian (get64 f p) i ≡ f (p + i)
byte_of_word f p zero small lt =
    let byte : little_endian (get64 f p) 0 ≡ f p = omega (
      arith,
      small p,
      small (p + 1),
      small (p + 2),
      small (p + 3),
      small (p + 4),
      small (p + 4 + 1),
      small (p + 4 + 2),
      small (p + 4 + 3),
    ) in
    byte ∙ ap f (omega arith)
byte_of_word f p (suc zero) small lt =
    let byte : little_endian (get64 f p) 1 ≡ f (p + 1) = omega (
      arith,
      small p,
      small (p + 1),
      small (p + 2),
      small (p + 3),
      small (p + 4),
      small (p + 4 + 1),
      small (p + 4 + 2),
      small (p + 4 + 3),
    ) in
    byte ∙ ap f (omega arith)
byte_of_word f p (suc (suc zero)) small lt =
    let byte : little_endian (get64 f p) 2 ≡ f (p + 2) = omega (
      arith,
      small p,
      small (p + 1),
      small (p + 2),
      small (p + 3),
      small (p + 4),
      small (p + 4 + 1),
      small (p + 4 + 2),
      small (p + 4 + 3),
    ) in
    byte ∙ ap f (omega arith)
byte_of_word f p (suc (suc (suc zero))) small lt =
    let byte : little_endian (get64 f p) 3 ≡ f (p + 3) = omega (
      arith,
      small p,
      small (p + 1),
      small (p + 2),
      small (p + 3),
      small (p + 4),
      small (p + 4 + 1),
      small (p + 4 + 2),
      small (p + 4 + 3),
    ) in
    byte ∙ ap f (omega arith)
byte_of_word f p (suc (suc (suc (suc zero)))) small lt =
    let byte : little_endian (get64 f p) 4 ≡ f (p + 4) = omega (
      arith,
      small p,
      small (p + 1),
      small (p + 2),
      small (p + 3),
      small (p + 4),
      small (p + 4 + 1),
      small (p + 4 + 2),
      small (p + 4 + 3),
    ) in
    byte ∙ ap f (omega arith)
byte_of_word f p (suc (suc (suc (suc (suc zero))))) small lt =
    let byte : little_endian (get64 f p) 5 ≡ f (p + 4 + 1) = omega (
      arith,
      small p,
      small (p + 1),
      small (p + 2),
      small (p + 3),
      small (p + 4),
      small (p + 4 + 1),
      small (p + 4 + 2),
      small (p + 4 + 3),
    ) in
    byte ∙ ap f (omega arith)
byte_of_word f p (suc (suc (suc (suc (suc (suc zero)))))) small lt =
    let byte : little_endian (get64 f p) 6 ≡ f (p + 4 + 2) = omega (
      arith,
      small p,
      small (p + 1),
      small (p + 2),
      small (p + 3),
      small (p + 4),
      small (p + 4 + 1),
      small (p + 4 + 2),
      small (p + 4 + 3),
    ) in
    byte ∙ ap f (omega arith)
byte_of_word f p (suc (suc (suc (suc (suc (suc (suc zero))))))) small lt =
    let byte : little_endian (get64 f p) 7 ≡ f (p + 4 + 3) = omega (
      arith,
      small p,
      small (p + 1),
      small (p + 2),
      small (p + 3),
      small (p + 4),
      small (p + 4 + 1),
      small (p + 4 + 2),
      small (p + 4 + 3),
    ) in
    byte ∙ ap f (omega arith)
byte_of_word f p (suc (suc (suc (suc (suc (suc (suc (suc i)))))))) small lt = absurd (omega arith)

all_bytes : List ℕ → Bool
all_bytes [] = true
all_bytes (x ∷ xs) = ltb x 256 && all_bytes xs

all_bytes-get_or : (xs : List ℕ) (i : ℕ) → all_bytes xs ≡ true → get_or xs i 0 < 256
unfolding all_bytes
all_bytes-get_or [] i h = omega arith
all_bytes-get_or (x ∷ xs) zero h = ground arith
all_bytes-get_or (x ∷ xs) (suc i) h = all_bytes-get_or xs i (ground arith)

around-small : (a : ℕ) → around zeros a < 256
unfolding all_bytes
around-small a = elim (Bool-cases (within 4096 4096 a)) [
  | inl inside ↦ rw inside (all_bytes-get_or blob (a - 4096) refl)
  | inr outside ↦ rw outside (omega arith)
]

is_tree :
    (m : Bytes)
    → ((a : ℕ) → a < 2 ^ 30 → Away layout 0 a → m a ≡ bytes_of start.machine.words a)
    → IsTree m 32 (dtb_init m none_before 4096) tree
is_tree m agrees =
    let same : (a : ℕ) → around m a ≡ m a = λ a. elim (Bool-cases (within 4096 4096 a)) [
      | inl inside ↦
          let aligned : a / 8 * 8 + a % 8 ≡ a = omega arith in
          let here : around zeros a ≡ around m a = rw inside refl in
          sym here
          ∙ ap (around zeros) (sym aligned)
          ∙ sym (byte_of_word (around zeros) (a / 8 * 8) (a % 8) around-small (omega arith))
          ∙ sym (agrees a (ground arith) (ground arith, ground arith, ground arith))
      | inr outside ↦ rw outside refl
    ] in
    let whole : around m ≡ m = (λ i a. same a i) in
    subst (λ f. IsTree f 32 (dtb_init f none_before 4096) tree) whole
      (subst (λ s. IsTree (around m) 32 s tree) (sym (dtb_init_run m)) (tree-IsTree m))

kernel_main-panics_example :
    (k' : Kernel) × (kernel_main through 10 32 0 no_buffers layout 0x80000 4096 start
      ≡ some (stopped k'))
    × (k'.console ≡ sending start.console (start.console.sent ++ panic_line no_framebuffer_text))
    × (k'.accesses ≡ start.accesses ++ uart_init)
    × IsHalted (cpu_get_core_id 0) k'.cpu
unfolding cpu_get_core_id
kernel_main-panics_example =
    kernel_main-panics through 10 32 0 no_buffers layout 0x80000 4096 start 0 no_heap tree
      (inl refl) refl refl (inl (omega arith)) (inr (omega arith)) (inr (omega arith))
      kmalloc_at_reset through-low is_tree (omega arith) (omega arith) (omega arith) (omega arith)
