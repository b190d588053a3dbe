-- ===== src/Kernel.antt =====
-- kern/kernel.c: the start of the kernel, up to the choice of the block device. The memory is the one of
-- kern/memory/vm_maps.c, 64-bit words by address; accesses to the registers of devices are a list in their order. What
-- the core reads once its translation is on is the parameter `view`: the bytes that the memory management unit
-- delivers under the registers and tables of the machine.
pub mod Stopped
mod Tests
use Prim.Native.Nat.{bit_or}
use astral_os.Common.{
  ℕ, ◌+◌, ◌*◌, ◌/◌, ◌%◌, ◌^◌, List, [], ◌∷◌, ◌++◌, Option, none, some, ◌>>=◌, u32, Bytes,
  little_endian,
}
use astral_os.BlockDevice.{Access, writes_word, BlockDeviceType, type_ufs}
use astral_os.Console.{Console, clear_words, kprintf_init, kprintf_varg}
use astral_os.Cpu.{Cpu, Exit, returns, waits, stops, running, check_and_halt_core, cpu_set_state}
use astral_os.Cpu.Panic.{crash_core_panic}
use astral_os.Dtb.{
  Dtb, dtb_init, dtb_get_property, dtb_get_memory_info, literal, fb_node_path, fb_prop_name,
  Framebuffer, read_framebuffer,
}
use astral_os.Memory.Kmalloc.{Heap, kmalloc_init}
use astral_os.Memory.PageTables.{Layout, Machine, cpu_enable_mmu}
use astral_os.Memory.VmMaps.{Vm, vm_init}

-- The state of the parts that the start goes through.
pub record Kernel : Type 0 where
  pub cpu : Cpu
  pub vm : Vm
  pub machine : Machine
  pub dtb : Dtb
  pub console : Console
  pub accesses : List Access
  pub vbar_el1 : ℕ
  pub active_block_device_type : BlockDeviceType

-- The start is stopped or waits for ever, or goes on with `fs_init`.
pub data Start : Type 0 where
  stopped : Kernel → Start
  waiting : Kernel → Start
  goes_on : Kernel → Start

-- What follows a call that may not return.
abbrev pub after_exit : Exit → Kernel → (Kernel → Option Start) → Option Start
after_exit (returns c) k rest = rest (record k { cpu = c })
after_exit (waits c) k rest = some (waiting (record k { cpu = c }))
after_exit (stops c) k rest = some (stopped (record k { cpu = c }))

-- A byte of memory.
abbrev pub bytes_of : (ℕ → ℕ) → Bytes
bytes_of words a = little_endian (words (a / 8 * 8)) (a % 8)

abbrev pub uart_base : ℕ
uart_base = 0x09000000

abbrev pub uart_init : List Access
uart_init =
    writes_word (uart_base + 0x30) 0
    ∷ writes_word (uart_base + 0x24) 13
    ∷ writes_word (uart_base + 0x28) 1
    ∷ writes_word (uart_base + 0x2C) (bit_or (2 ^ 4) (3 * 2 ^ 5))
    ∷ writes_word (uart_base + 0x30) (bit_or (bit_or (2 ^ 0) (2 ^ 8)) (2 ^ 9))
    ∷ []

-- "framebuffer info not found in dtb!\n" and "astral os\n"
abbrev pub no_framebuffer_text : List ℕ
no_framebuffer_text =
    b'f' ∷ b'r' ∷ b'a' ∷ b'm' ∷ b'e' ∷ b'b' ∷ b'u' ∷ b'f' ∷ b'f' ∷ b'e' ∷ b'r' ∷ b' ' ∷ b'i' ∷ b'n'
    ∷ b'f' ∷ b'o' ∷ b' ' ∷ b'n' ∷ b'o' ∷ b't' ∷ b' ' ∷ b'f' ∷ b'o' ∷ b'u' ∷ b'n' ∷ b'd' ∷ b' '
    ∷ b'i' ∷ b'n' ∷ b' ' ∷ b'd' ∷ b't' ∷ b'b' ∷ b'!' ∷ b'\n' ∷ []

abbrev pub name_text : List ℕ
name_text = b'a' ∷ b's' ∷ b't' ∷ b'r' ∷ b'a' ∷ b'l' ∷ b' ' ∷ b'o' ∷ b's' ∷ b'\n' ∷ []

-- The heap over the memory that the device tree names, or over 256 MB at 2 GB.
abbrev pub start_heap : Kernel → Option (ℕ × ℕ) → Kernel
start_heap k (some (mem_start, mem_size)) = record k {
  machine = record k.machine { heap = kmalloc_init k.machine.heap.mem mem_start mem_size };
}
start_heap k none = record k {
  machine = record k.machine {
    heap = kmalloc_init k.machine.heap.mem 0x80000000 (256 * 1024 * 1024);
  };
}

-- The console on the framebuffer, the heap, and the type of the block device.
unfoldable pub set_up_screen :
    (view : Machine → Bytes) (fuel width : ℕ) (stack : ℕ → Bytes × Bytes)
    → Framebuffer
    → Kernel
    → Option Start
set_up_screen view fuel width stack fb k =
    let console = kprintf_init k.console fb.fb_base fb.fb_width fb.fb_height fb.fb_pitch in
    let cleared = record console {
      screen = clear_words console.screen 0 (u32 (fb.fb_height * fb.fb_pitch) / 4);
    } in
    kprintf_varg cleared (stack 3).0 (stack 3).1 name_text [] >>= (λ console.
      dtb_get_memory_info fuel width (view k.machine) k.dtb >>= (λ memory. some (
        goes_on (record (start_heap (record k { console = console }) memory) {
          active_block_device_type = type_ufs;
        }))))

-- The branch on the property of the framebuffer.
unfoldable pub with_framebuffer :
    (view : Machine → Bytes) (fuel width mpidr : ℕ) (stack : ℕ → Bytes × Bytes)
    → Option Framebuffer
    → Kernel
    → Option Start
with_framebuffer view fuel width mpidr stack (some fb) k = set_up_screen view fuel width stack fb k
with_framebuffer view fuel width mpidr stack none k =
    crash_core_panic mpidr stack k.console k.cpu no_framebuffer_text [] >>= (λ r.
      after_exit r.1 (record k { console = r.0 })
        (set_up_screen view fuel width stack
          (record { fb_base = 0; fb_width = 0; fb_height = 0; fb_pitch = 0 })))

-- From the tables on.
unfoldable pub with_machine :
    (view : Machine → Bytes) (fuel width mpidr : ℕ) (stack : ℕ → Bytes × Bytes)
    → Layout
    → (dtb_addr : ℕ) → Kernel
    → Option Start
with_machine view fuel width mpidr stack layout dtb_addr k =
    cpu_enable_mmu layout k.machine >>= (λ machine.
      let memory = view machine in
      let dtb = dtb_init memory k.dtb dtb_addr in
      dtb_get_property fuel width memory dtb (literal fb_node_path) (literal fb_prop_name)
      >>= (λ prop_val.
          with_framebuffer view fuel width mpidr stack (read_framebuffer memory prop_val)
            (record k { machine = machine; dtb = dtb })))

-- `kernel_main` on the core whose register is `mpidr`, up to `fs_init`. `fuel` and `width` bound the tags and the strings
-- of the device tree.
unfoldable pub kernel_main :
    (view : Machine → Bytes) (fuel width mpidr : ℕ) (stack : ℕ → Bytes × Bytes)
    → Layout
    → (exception_vectors dtb_addr : ℕ) → Kernel
    → Option Start
kernel_main view fuel width mpidr stack layout exception_vectors dtb_addr k =
    let k = record k { accesses = k.accesses ++ uart_init } in
    after_exit (check_and_halt_core mpidr k.cpu) k (λ k.
      after_exit (cpu_set_state mpidr k.cpu running) k (λ k.
        with_machine view fuel width mpidr stack layout dtb_addr
          (record k { vbar_el1 = exception_vectors; vm = vm_init k.vm })))
