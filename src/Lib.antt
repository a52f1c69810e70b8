-- ===== src/Lib.antt =====
-- TangPingOS: an x86-64 kernel for one user, with cooperative and timed switching between at most
-- eight tasks, a virtual file system and block devices. This library models the kernel's own data
-- structures and the calls that change them, each as a function from the state before to the
-- result and the state after.
--
-- The parts, and the C files that they follow:
-- Prelude: arrays as lists, C strings, 64-bit words, byte copies, and physical memory by bytes.
-- Ramfs: kernel/ramfs.c, a table of 16 files of at most 1024 bytes. `write`, `truncate`, `unlink`,
--   `read`, `list`, `size` and `init` are the functions of those names with the prefix `ramfs_`.
-- Vfs: kernel/vfs.c, the mounted file systems and the choice between them; a function `f` is
--   `vfs_f`. The callbacks of a mounted file system are the parameter `Backend`, and what a task's
--   descriptors ask of the whole is the interface `VfsOps`.
-- Fd: the file descriptors in kernel/scheduler.c; `f` is `scheduler_f_current_file` or the static
--   function of a like name.
-- Scheduler: the other half of kernel/scheduler.c; `f` is `scheduler_f` or the static function. It
--   applies the calls of Fd to the descriptors of the current task.
-- Pmm: the allocator of physical pages in kernel/memory.c; `f` is `pmm_f`, and `memory_init`.
-- Vmm: the page tables in kernel/memory.c; `f` is `vmm_f` or the function of that name.
-- Usercopy: kernel/usercopy.c, access to the memory of user space by the translation of Vmm.
-- Syscall: the calls of kernel/syscall.c on files by their paths; `f` is `syscall_f`. The functions
--   of the virtual file system are the interface `Files`, which `Syscall.Mounted.vfs_files` fills
--   with those of Vfs over mounted file systems, Ramfs among them. Its children Descriptors and Sectors have
--   the calls on descriptors, over Fd and Input, and on the sectors of Block.
-- Heap: the kernel heap in kernel/memory.c; `kmalloc` and `kfree`. What it asks of the page
--   tables is the interface `Mapper`, which `Vmm.heap_mapper` fills. What lies in memory where
--   `kfree` is given an address that is no block's is a parameter.
-- Block: kernel/block.c, the table of block devices; `f` is `block_f`. Drivers outside that file
--   are the parameter `Drivers`.
-- Partition: kernel/partition.c, which registers the partitions of a disk as devices of Block.
-- Initrd: kernel/initrd.c, the files of a tar archive; `f` is `initrd_f` or the static function, and
--   `init_modules` is `initrd_init`.
-- Input: kernel/input.c, the ring buffer of typed characters.
--
-- Numbers are natural numbers with the wrap-around of `uint64_t` written out where the source can
-- reach it. Memory that the source addresses by pointers is a list or a function from addresses.
-- The results -1, (uint64_t)-1 and a null pointer are `none`, but for a seek, whose result is a
-- word, and so is a kernel panic, but for that of `kfree`, which has three ends. Loops are recursion on a list or on the number of rounds left.
-- Some recursions have fuel: `Vfs.strip_slashes`, which shortens its text in each round, so that
-- the length is enough; `Pmm.scan_run`, whose start rises in each round, so that the number of
-- pages is enough; `Block.read_at` with `write_at`, where the parent of a partition has a smaller
-- index, so that the number of devices is enough; `Initrd.scan`, whose cursor rises by 512 at
-- least, so that the number of blocks of the archive and one round more are enough, and which has no
-- result when its fuel is used up; and the loops of `Usercopy`, of which a round gets on by a byte
-- at least, so that the length of the range is enough.
--
-- Not modelled: console and log output, interrupts, PCI and virtio, the switch of the machine's
-- context, the translation cache, the file systems on block devices, the other system calls and
-- user space. Null pointer tests of arguments are left out where the argument is a value here.
pub mod Prelude
pub mod Input
pub mod Vfs
pub mod Vmm
pub mod Usercopy
pub mod Syscall
pub mod Ramfs
pub mod Initrd
pub mod Fd
pub mod Scheduler
pub mod Pmm
pub mod Heap
pub mod Block
pub mod Partition
