-- ===== src/Memory.antt =====
-- kern/memory: the kernel heap and the table of mappings.
pub mod Kmalloc
pub mod VmMaps
pub mod PageTables
