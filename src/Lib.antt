-- ===== src/Lib.antt =====
-- ApPa is a 32-bit x86 kernel with its own heap, page allocator, scheduler, C library, drivers and
-- shell. This library models the parts below and proves them correct.
--
-- Parts, the files that model them, and the code that they model:
--   Kmalloc: kernel/mem/kmalloc.c. The heap is a map from addresses to block headers; `kmalloc`,
--     `kfree` and `kmalloc_status` pass it on. Kmalloc/Blocks relates it to the list of its blocks.
--   Pmm: kernel/mem/pmm.c. The bitmap is a list of 128 words of 32 bits, with the counters.
--   Paging: kernel/mem/paging.c. The memory is a map from addresses to 32-bit words, under the identity
--     mapping of the kernel; Paging/Process has the directories of processes.
--   Sched: kernel/task/sched.c. Task control blocks are the values of a map from addresses, linked
--     in a circle; Sched/Queue relates the circle to a list of tasks.
--   CString: klibc/string.c, with `uitoa` in CString/Number, and of libc/string.c `strncpy`. An object is
--     the list of its bytes from the pointer on; an access past its end gives `none`.
--   Stdio: klibc/stdio.c: `utoa` and `itoa`, with the swaps of `reverse` in place.
--   UserStdio: libc/stdio.c: `vsnprintf` and what is built on it.
--   Klog: kernel/sys/klog.c: the ring of log entries, and the formatting of a message; an access
--     outside a buffer gives `none`.
--   SimpleFs: fs/simplefs.c, over the block device of fs/block.h, which is a parameter: the calls of a
--     device, with its state; SimpleFs/Device says what is relied on, SimpleFs/OnRamdisk makes the RAM
--     disk a device. Directory entries and the superblock are kept as bytes on the device.
--   Ramdisk: fs/ramdisk.c: blocks of a run of pages, which it takes from Pmm.
--   Task: kernel/task/task.c: the pool of control blocks, the stacks and frames of new tasks, exit and
--     the reaper, over Sched, Pmm and Paging; Task/Pool has the invariant of the pool. Task/Switch has
--     what kernel/task/switch.asm stores when a task exits or yields.
--   Timer: kernel/sys/timer.c: the ticks, the handler over Sched, the uptime.
--   Cpu: kernel/arch/gdt.c, tss.c and idt.c: descriptors and gates, as maps from their indices.
--   Interrupt: kernel/arch/isr.c, irq.c, pic.c and pit.c: dispatch, the exception report, and the writes
--     to ports in their order; what is read from a port is a parameter.
--   Syscall: kernel/arch/syscall.c: the dispatcher and its table, the pointer check, SYS_WRITE and
--     SYS_READ; Syscall/Process has the calls that reach the scheduler and the tasks.
--   Elf: kernel/exec/elf.c: the check of a header.
--   Screen: drivers/screen.c: the video memory, the cursor, scrolling; what is sent to the serial port.
--   Keyboard: drivers/keyboard.c and .h: the interrupt handler, on the scan code it reads.
--   Shell: shell/shell.c: the line editor, the command parser, the colour names.
--   Base: shared tests, lists, words, bits.
-- The keyboard hands characters to `shell_input`, which hands complete lines to `shell_execute`;
-- this parses them with the string library. `klog` formats numbers with Stdio and copies with
-- CString; `vsnprintf` and `kprint_uint` use the same digits. Paging takes its tables from Pmm, and
-- so does the RAM disk that can carry the file system. Task puts the blocks it fills into the queue of
-- Sched, with stacks from Pmm and directories from Paging; the timer interrupt and the system calls
-- drive the same scheduler.
--
-- Numbers are natural numbers, with the wrap-around at 2 ^ 32 written out where the code can reach
-- it. Loops over linked structures take fuel: a heap scan as many rounds as a heap of the smallest
-- blocks has, a walk of the ready queue 65 rounds, for 64 tasks of the pool and the idle task; the
-- digit loops take 33, one more than the bits of a word, `reverse` one for each character,
-- `vsnprintf` one more than the format has characters, SYS_WRITE one for each chunk and one more.
-- The theorems about these functions prove that this is enough. The loops of the file system run
-- over 32 entries, or over the blocks of a file.
--
-- Not modelled: assembly but for what `task_switch` stores, port I/O, what other files print, the
-- registers of a task that is switched to,
-- interrupts that arrive inside a function, and the components that the other files do not name,
-- such as the loading of ELF segments, the ATA disk and the handler of protection faults. A sleep takes as
-- parameters the number of polls it may make, what the tick counter reads at each of them, and what
-- the other tasks do between a yield of the caller and its next turn. A position on the screen and a
-- number in a format whose `int` overflows end the call without a result.
pub mod Base
pub mod CString
pub mod Cpu
pub mod Elf
pub mod Interrupt
pub mod Keyboard
pub mod Klog
pub mod Kmalloc
pub mod Paging
pub mod Pmm
pub mod Ramdisk
pub mod Sched
pub mod Screen
pub mod Shell
pub mod SimpleFs
pub mod Stdio
pub mod Syscall
pub mod Task
pub mod Timer
pub mod UserStdio
