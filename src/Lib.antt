-- ===== src/Lib.antt =====
-- MAI-UNIX is a small Unix-like kernel for the 32-bit PC. The parts that are modelled here are
-- its page allocator, its page tables and its heap (mm/), its processes and scheduler
-- (proc/proc.c), its file system in memory (fs/ramfs.c), the layer of paths and open files on
-- top of it (fs/vfs.c), the keyboard, the line editor and the screen (drivers/tty.c), the
-- interrupt handlers (drivers/irq.c), the system calls and their dispatcher
-- (syscall/syscall.c), the C library (libc/libc.c), the descriptor tables (kernel/gdt.c,
-- kernel/idt.c), the start of the kernel (kernel/main.c) and the command line of the shell
-- (userland/sh.c). The scheduler runs the processes of one table in turn, on the ticks of the
-- timer and where a process gives up the processor; `proc_fork` and `proc_exit` call the
-- address spaces of mm/vmm.c. `kmalloc` of mm/heap.c takes pages from mm/pmm.c and maps them
-- with `vmm_map`. A system call arrives with its number and its arguments in registers;
-- `syscall_dispatch` calls the functions of the other parts with them, on the files and the
-- directory of the current process. An open file points to a vnode, and its operations go
-- through the vnode's table of operations to fs/ramfs.c or to the terminal (drivers/tty.c).
--
-- Mm/Pmm.antt is mm/pmm.c: its three static variables are the record `Pmm`, and `pmm_init`,
-- `pmm_alloc` and `pmm_free` go from one to the next. Mm/Vmm.antt is mm/vmm.c on the physical
-- memory as a function from word numbers to words; Mm/Vmm/Space.antt sees an address space as
-- one function from page numbers to entries. Mm/Heap.antt is mm/heap.c with the block headers
-- at their addresses, and the next and previous pointers in them; Mm/Heap/Chain.antt reads them
-- as a list of blocks, and Mm/Heap/Used.antt as the list of the regions that are handed out.
-- Proc/Spaces.antt hands Mm/Vmm.antt to proc/proc.c. Proc/Process.antt has `process_t` of
-- include/kernel/proc.h and the variables of proc/proc.c as the record `Kernel`, where
-- `current_proc` is the index in the table. Proc/Sched.antt is `scheduler_tick`, `proc_yield`
-- and `proc_sleep`; Proc/Life.antt is creation, fork, exit, wait and kill. `wait_round` is one
-- round of the endless loop of `proc_wait`; Proc/Life/Reap.antt says what it does by the table of
-- processes before and after. Fs/Node.antt has the nodes of fs/ramfs.c on a store
-- that names each by its address, and Fs/Ramfs.antt the vnode operations. Fs/Vfs.antt is
-- `vfs_lookup` and `vfs_mount`, Fs/File.antt `file_open` and the other operations on a
-- `file_t`, which is a value there. Drivers/Keyboard.antt is `keyboard_handler`, `tty_getchar`
-- and `tty_readline`, the last on the list of the bytes that arrive. Drivers/Screen.antt is the
-- text memory and `tty_putchar`. Syscall/Fd.antt is the table of descriptors and the system
-- calls on files and directories; a `file_t` has an address there, which several descriptors
-- may share. Syscall/Process.antt has the calls that pass on to proc/proc.c.
-- Syscall/Dispatch.antt is `syscall_dispatch` with `sys_fork`, `sys_exit`, `sys_waitpid` and
-- `sys_execve` on the record `World`, which has the processes, the files, the terminal and the
-- memory that the arguments point into; its result says whether the call returns, waits, ends
-- the process or enters a program. Syscall/Interrupt.antt is `isr_handler_ext` of
-- kernel/main.c. Drivers/Irq.antt has the handlers of drivers/irq.c, with the reports that they
-- show. Libc/Num.antt is the character tests and `atoi` of libc/libc.c, Libc/Print.antt its
-- `itoa_buf`, `vsnprintf`, `snprintf` and `kprintf`, and Libc/Mem.antt its functions that write
-- memory, on a function from addresses to bytes. Libc/Process.antt is its `getpid`, `sleep` and
-- `exit`, and Libc/Alloc.antt its `malloc`, `free` and `realloc`. Libc/Fd.antt is `open`,
-- `close`, `read`, `write` and `printf` of libc/libc.c on the table of descriptors.
-- Libc/Str.antt is `strlen`, `strcmp`, `strncmp`, `strchr`, `strrchr` and `strstr`; the copies
-- that the kernel's files keep of them are the same functions. Boot/Gdt.antt and Boot/Idt.antt
-- are kernel/gdt.c and kernel/idt.c, with the addresses of the segment and of the stubs as
-- parameters. Boot/Main.antt is the start in kernel/main.c: the amount of memory, the set-up of
-- the memory managers, the files that `build_initfs` makes, and the descriptors of
-- `init_process`. Userland/Shell.antt is `parse_args`, the table of commands and a round of
-- `shell_main`. Userland/Builtins.antt has the commands `pwd`, `cd`, `mkdir`, `rm`, `echo` and
-- `uname` of userland/sh.c. Userland/Exec.antt is `exec_program` of userland/exec.c.
-- Prelude.antt passes on what all files share.
--
-- Numbers are natural numbers; where a variable is a 32-bit word, sums and differences are
-- taken modulo 2 ^ 32 (`add32`, `sub32`). Results that may be negative are the `ℤ` of
-- Prelude/Int.antt. `none` where the code returns normally stands for a fault: an access
-- outside an array or a buffer, or to a node that has been freed. The loops are structural,
-- over the rest of a list or the number of rounds left; `lookup_loop` of Fs/Vfs.antt runs on
-- fuel, one more than the path has bytes, and each round takes at least one byte. The walks of
-- mm/heap.c along the list of blocks run on fuel too: `heap_fuel`, 2 ^ 28, is more than the
-- number of headers of 20 bytes below 4 GB. `print_loop` of Libc/Print.antt runs on the length
-- of the format, of which each round takes a byte. The searches for a NUL in Libc/Mem.antt and
-- Prelude/Memory.antt run on 2 ^ 32, the size of the address space.
--
-- Not modelled: the contents of the kernel stacks and the switch of the processor's registers
-- (proc/switch.S), of which only the saved stack pointers are kept; running out of heap memory
-- in the kernel's other parts, whose objects have addresses of their own; buffers of a system
-- call that lie in the data of the kernel; the TLB and the
-- control registers; headers of mm/heap.c that a kernel bug overwrites; the terminal as a
-- vnode, which is the interface `CharDevice`; the commands `cat`, `ls`, `ps`, `help`, `sleep`
-- and `write` of userland/sh.c and the text that `init_process` shows; the serial port, and the
-- set-up of the interrupt and keyboard controllers in kernel/idt.c; boot/boot.S and the other
-- assembly.
pub mod Prelude
pub mod Mm
pub mod Boot
pub mod Proc
pub mod Libc
pub mod Fs
pub mod Drivers
pub mod Syscall
pub mod Userland
