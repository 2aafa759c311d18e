-- ===== src/Lib.antt =====
-- UIX is a small x86-64 kernel in C: a page allocator, page tables, a heap, a keyboard with a line
-- discipline, a console, a read-only file system, a preemptive round-robin scheduler, a loader of
-- ELF programs, and the system calls of `int 0x80`.
--
-- How the parts interact. `pmm_init` of core/memory/pmm.c builds the bitmap of free pages from the
-- memory map of the boot loader. The heap of core/memory/heap.c takes pages from it, maps them
-- through the page tables of core/memory/vmm.c and cuts them into blocks. A page fault on a page
-- that `fork` has shared copies it. The keyboard interrupt fills a ring (drivers/keyboard.c),
-- which the line discipline (personality/tty.c) drains into a line when a task reads. The file
-- system (personality/fs/uixfs.c) reads into pages of the allocator. Tasks stand in a registry
-- (core/cpu/task.c); the scheduler (core/cpu/sched.c) keeps them on a run queue or a blocked list,
-- and `schedule` hands the processor on. The dispatcher (core/cpu/syscall.c) joins them: `exit`
-- wakes the parent, `wait4` reaps, `read` polls the keyboard. `isr_dispatch` (core/cpu/idt.c)
-- hands every interrupt to the page fault handler, the timer, the keyboard or the dispatcher. A
-- new task starts on a kernel stack that core/cpu/task.c, user.c, fork.c or exec.c has built for
-- `switch_to`.
--
-- The files. Each module models the source file named beside it; its child modules hold proofs.
--   Base      tests, C arrays as lists, bits of words, counted loops, `Outcome` (a return, a panic, or
--             an access outside every object, after which C says nothing)
--   Libc      core/lib.c: one function per routine, on a memory of bytes
--   Pmm       core/memory/pmm.c: the record `Pmm` is its static variables; `alloc`, `alloc_pages`,
--             `free`, `ref`, `unref`, `getref`; Pmm/Init is `pmm_init`
--   Heap      core/memory/heap.c: `kmalloc`, `kfree`, `kzalloc`, `init`; what it calls below is the
--             interface `Pages`, which stands for `pmm_alloc` and `vmm_map`
--   Vmm       core/memory/vmm.c: physical memory in pages of 512 words; `pt_for`, `map_page`,
--             `unmap`, `translate`, `fork_user_space`, `page_fault`; Vmm/Backing fills `Pages`
--   Keyboard  drivers/keyboard.c: the ring; a scan code read from the port is an argument
--   Tty       personality/tty.c: the line; what the console is given is collected
--   Kprintf   core/kprintf.c: `kvprintf`, from a format and arguments to characters
--   Uixfs     personality/fs/uixfs.c: `mount`, `read`, over a block device that is a parameter
--   Console   core/console.c: the cursor and the framebuffer as an array of pixels; Console/Font is the
--             table of glyphs; what the serial port is given is collected
--   Pci       drivers/pci.c: `pci_scan` and the searches, over the two ports as a parameter
--   Interrupts core/cpu/idt.c: the descriptor tables and `isr_dispatch`, on a machine that has the
--             state of the parts that it calls
--   Elf       core/cpu/elf.c: `elf_load`, over the interface `Pages` of the heap
--   Spawn     the kernel stacks of new tasks, `task_create`, `do_fork`, and what `switch_to` and
--             `fork_child_stub` of arch/x86_64/switch.S take from them
--   Exec      core/cpu/exec.c and user.c: `do_execve` and `user_task_create` on a `World` of the parts that
--             they call; Exec/UserStack is `build_user_stack`, Exec/Image the loading of flat images,
--             Exec/Freeing the freeing of the old tables; what a page holds when it is mapped is a parameter
--   Virtio    drivers/virtio_blk.c: `do_request`, over a device as a parameter; Virtio/Setup is
--             `virtio_blk_init`, over the port instructions
--   Io        include/uix/io.h: the port instructions as a parameter; Io/Polling is the loop that waits for
--             a register
--   Serial    drivers/serial.c, over the port instructions
--   Apic      core/cpu/apic.c: the I/O APIC and the timer, over the instructions and the mapped registers
--   Boot      boot/boot.c and the self test of core/kmain.c
--   Task      core/cpu/task.c and include/uix/task.h: tasks by address, the registry, descriptors
--   Sched     core/cpu/sched.c: `schedule`, cut at `switch_to`, wake-ups, the timer tick
--   Syscall   core/cpu/syscall.c: `dispatch` and its calls; `do_fork` and `do_execve` are the
--             interface `Programs`, which Interrupts/Dispatch ties to those of Spawn and Exec
--   Examples  runs on concrete states
--
-- Numbers. Machine words are natural numbers with the wrap-around written out; an address is a
-- number. A list that is chained through its elements is the list of their addresses.
--
-- Fuel and bounds. Loops over the bitmap, the memory map, the free list, the run queue and the
-- registry are structural, and so are the loops over pixels, devices and pages, which count their
-- rounds. A request to the disk looks at the queue `max_spins + 1` times, as the source does. The
-- loop over the base addresses of a device has fuel 6, one for each register. The digit loop of
-- `uix_utoa` has fuel 64: a u64 has at most 64 digits. The sector loop of `uixfs_read` has the
-- number of bytes as fuel: a round reads at least one. A wait for the serial port or the timer ends
-- when the hardware says so: its fuel is an argument, and any number above the looks that it takes is
-- enough. `strlen`, `strcpy` and `strcmp` take fuel as an argument, since C bounds them by the text
-- only. `kmalloc` may call itself once: the block that it adds is larger than every request it
-- accepts. The path in `do_execve` has a NUL among its 64 bytes, which is the fuel of `strlen` there.
--
-- Not modelled: the order of the calls in `kmain`, the self test of virtio, kernel stack pointers and the
-- TSS in the scheduler, the entry stubs in assembly, and the vendored boot loader. `isr_dispatch`
-- counts the ticks; that a tick arms the timer again is in Apic. Log lines are left out of the parts
-- that are modelled.
pub mod Base
pub mod Libc
pub mod Pmm
pub mod Heap
pub mod Vmm
pub mod Keyboard
pub mod Tty
pub mod Task
pub mod Kprintf
pub mod Uixfs
pub mod Console
pub mod Pci
pub mod Io
pub mod Boot
pub mod Serial
pub mod Apic
pub mod Interrupts
pub mod Elf
pub mod Spawn
pub mod Exec
pub mod Virtio
pub mod Sched
pub mod Syscall
mod Examples
