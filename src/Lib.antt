-- ===== src/Lib.antt =====
-- AstralOS: a verification library for the kernel under kern.
--
-- The kernel has a heap (kern/memory/kmalloc.c), a table of virtual memory mappings
-- (kern/memory/vm_maps.c) with a check on it (kern/security/security.c), a round-robin scheduler
-- (kern/sched/astral_sched.c), block device drivers (kern/drivers/block/block_device.c), a file
-- system on them (kern/fs/fs.c), a tree of nodes above it (kern/fs/vfs.c), a parser of the device
-- tree (kern/boot/dtb.c), a console (kern/debug/kprintf.c), the states of the cores
-- (kern/cpu/cpu.c), and the memory and string routines that they use (kern/lib/lib.c). The file
-- system takes memory from the heap and blocks from the drivers; the scheduler allocates tasks and
-- their page tables from the heap; the tree of nodes takes memory from the heap; the console prints
-- through vsnprintf; the parser compares names with the string routines.
--
-- Common holds what the parts share: Boolean tests, lists over native numbers, machine words,
-- memory as a function from offsets to bytes.
--
-- Memory.Kmalloc models kmalloc_init, kmalloc and kfree on block headers in a store by address.
-- Blocks is the abstract heap, a list of sizes with a mark; Repr says when headers in memory are
-- such a list; Alloc and Free say that the code does what the list does; Safety, Alignment and
-- Client (on Grants and Steps) speak of clients that allocate and free in any order; Limits has the
-- edges. The loops run on fuel, one more than the bytes of the heap: each block takes 24 bytes of
-- it.
--
-- Memory.VmMaps models the table of 64 mappings and its operations, from
-- find_free_vm_map_entry_slot to vm_map_deallocate. Table has the lemmas on overlaps, Resolve the
-- translation of an address by the table, Calls the sequences of calls, Limits the edges. Flushes
-- of the TLB are counted.
--
-- Memory.PageTables models cpu_enable_mmu and vm_create_task_pagetable of the same file on 64-bit
-- words by address, with the heap and the registers that they set. Walk is the translation that the
-- Arm architecture defines for the registers tcr_el1, ttbr0_el1, mair_el1 and sctlr_el1 and the
-- tables in memory, with the 4 KB granule and a first table of a whole page; permissions but those
-- to execute are left out of it. Blocks and Maps say what the loops write, Boot and Tasks what is
-- translated. The loop over the framebuffer runs on fuel, as many rounds as it has blocks. The
-- table of mappings is not copied into these tables.
--
-- Security models security_enforce_wx on that table.
--
-- Sched models the static variables, the lock, sched_init, sched_add_task, sched_yield and
-- sched_schedule, each with a result that says how control leaves it. Valid has the invariant over
-- calls, Rounds the order in which tasks run. Create models sched_create_task on the heap and the
-- page tables, Leaks what it keeps of the memory. One core is modelled; the assembly of the switch
-- is not.
--
-- BlockDevice models the UFS and eMMC commands as lists of accesses to registers and memory, and
-- the choice of the driver; the controllers are hardware and are not modelled.
--
-- Console models kern/debug/kprintf.c: the cursor, the glyphs (Font has the table of
-- kern/lib/font_data.c), the scrolling of the screen, which is 32-bit words by index, and
-- kprintf_varg through vsnprintf. Draw says where a character writes, Scroll what scrolling does,
-- Cursor where the cursor is, Printed what a message prints. The loop over the buffer runs on 256
-- rounds, the size of the buffer.
--
-- Cpu models the states of the cores of kern/cpu/cpu.c, and check_and_halt_core and crash_core of
-- kern/debug/crash_core.c; mpidr_el1 is an argument, and the results say who waits for ever. Panic
-- is crash_core_panic, on the console.
--
-- Kernel models kernel_main of kern/kernel.c from uart_init to set_active_block_device, as the
-- other parts' functions in its order: a result says whether the core is stopped, waits, or goes
-- on. What the core reads once its translation is on is a parameter, the bytes that the memory
-- management unit delivers in a machine; the theorem on the panic asks that addresses below 2^30
-- read as themselves with the tables of cpu_enable_mmu, and its witness takes the bytes by Walk.
-- What the buffers of kprintf_varg hold at first is an argument. Stopped says where the start ends
-- on each core. The calls from fs_init on are not composed.
--
-- Dtb models kern/boot/dtb.c on bytes: Swap the change of byte order, Tree the tokens of a device
-- tree and how they lie in memory, Passed and Hidden which nodes dtb_get_property looks at, Root
-- the properties of the root. The loop over the tokens runs on fuel, which the theorems ask to be
-- above their number; the strings have a bound of their own. dtb_find_node has no caller and is not
-- modelled.
--
-- Fs models kern/fs/fs.c on bytes: Store the state and the inode table, Bitmap the allocators,
-- Format fs_init, Dir fs_lookup, fs_create and fs_delete, Data fs_read and fs_write. Allocation is
-- the calls of kmalloc and kfree, on the heap of Memory.Kmalloc; both return on a heap in a state
-- that calls lead to (IsInUse), and where a loop has no fuel left, allocate stands for a null
-- pointer and release keeps the heap. A theorem that needs memory for an inode asks for it at the
-- heap in question (HasRoom). The block device is a parameter (the record Env); what the theorems
-- rely on of it is the record IsDisk, and the record IsReliable of Content for those on reading
-- back: a device whose blocks are apart and whose transfers of 4096 bytes succeed. The UFS driver,
-- which kernel_main selects, asks its controller for such blocks and always returns 0; the eMMC
-- driver is no such device, since it transfers 512 bytes for a block. Content is the bytes of a
-- file, Open the inode of a file in memory and its place in the table, Reading what the loop of
-- fs_read copies; Ensure, Writing, Saved and Grown follow a block, a round, the loop and the end of
-- fs_write, and ReadBack puts them together. Entries is the search in a block of a directory,
-- Lookup that in its blocks, Changed, Updated and Placing follow the entry that fs_create writes,
-- and Named and Created say what a lookup then finds; Cleared, Removed and Deleted do so for
-- fs_delete. Directory is a directory that is in order. The loops of fs_read and fs_write run on
-- eleven rounds, one for each direct block and one to end. A null pointer that kmalloc returns for
-- a bitmap is written through by the source; the model keeps the bitmap's bytes alone.
--
-- Vfs models the nodes of kern/fs/vfs.c in a store by address. Loops over siblings run on fuel, and
-- the theorems ask for more than the number of children. vfs_read and vfs_write do not fit the
-- prototypes that they call and are not modelled.
--
-- Strings models the memory and string routines of kern/lib/lib.c. A loop that a terminator ends
-- runs on fuel, and the theorems ask for more than the length of the string. Itoa models itoa, with
-- Digits and Printed on the text that it leaves; twenty rounds are enough for its loop, since a
-- magnitude of 64 bits has no more digits in base 10. Format models vsnprintf, with the list of
-- what is left of va_list; Expanded is the text that a format stands for, Room, Loop and Formatted
-- say what the buffer holds. snprintf passes its arguments on; what waits for the UART is not
-- modelled.
--
-- Not modelled: the instructions of the processor, the timer, the calls of kernel_main from fs_init
-- on, and the assembly files.
pub mod Common
pub mod Memory
pub mod Security
pub mod Sched
pub mod BlockDevice
pub mod Console
pub mod Cpu
pub mod Dtb
pub mod Fs
pub mod Kernel
pub mod Vfs
pub mod Strings
