-- ===== src/Lib.antt =====
-- A verification library of hios, a small kernel in C after Linux 0.11.
--
-- Memory (mm/memory.c). `Mm` is the state: the end of memory, the reference counts `mem_map`, and
-- physical memory as words by address, in which the page directory (at address 0) and the page
-- tables lie. `Mm.Pages` has the page allocator, `Mm.Tables` the functions on page tables, each by
-- the name that it has in C. A masked or shifted address is written by `/`, `%` and `*`. What the
-- processor does with the tables is `Mm.Tables.Walk.walk`, which is no code of the repository.
--
-- Scheduling (kernel/sched.c). `Sched` is the task table, the current slot and the clock. `schedule`
-- takes fuel for its endless loop, of which two rounds are enough; it ends where `switch_to` would
-- run. A function that sleeps, in `Sched.Queue`, is cut in two at its call of `schedule`. The fields
-- of `struct task_struct` that the modelled code does not use are left out, and so is
-- sched_init. sys_sleep of kernel/sys.c is there too.
--
-- Exit (kernel/exit.c). `Proc` is the task table and the memory. `Proc` has `release`, signals and
-- `do_exit` up to its call of `schedule`, from which a zombie does not return. What other tasks do
-- while `release` waits is a parameter. `Wait` is sys_waitpid; its loop
-- takes fuel, since it may wait for ever. `Errno` is include/errno.h.
--
-- Processes and files. `System` is the state that the rest shares: the task table with the memory, the
-- tables of files and inodes (include/linux/fs.h), and the fields of `struct task_struct` that concern
-- files, as arrays by slot. `Fork` is kernel/fork.c, with the sys_fork of kernel/system_call.s that
-- calls it; 65 rounds are enough for its search of a pid, since 64 tasks cannot hold 65 pids. The
-- segment descriptors in the GDT and the coprocessor's registers are left out. `Files` is fs/open.c
-- and fs/fcntl.c; check_disk_change, which does nothing, is left out. open_namei and iput are
-- parameters of sys_open and sys_close. `Signal` is
-- kernel/signal.c with kernel/libc_restore.s, whose functions end a handler.
--
-- Terminal (kernel/chr_drv). `Tty` is tty_queue.c and the macros of include/linux/tty.h, with the ring
-- as a record; `Tty.Ring` reads it as a list of characters. `Console` is console.c: `video_x`,
-- `video_y`, the bytes of the screen and the display's registers. The loop of con_write has fuel for
-- 1023 characters, as many as a ring holds, and the loop for a tab for the 7 columns that it may go.
-- con_init is not modelled. `Line` is tty_io.c for the one terminal there is; the loop of
-- copy_to_buffer has the same fuel as con_write, and what sleep_if_empty leaves is a parameter of
-- tty_read. `Keyboard` is do_keyboard.c, whose handler ends in `copy_to_buffer`.
--
-- Block cache (fs/buffer.c). `Cache` has the buffer heads as arrays by index, the hash table and the
-- ring of free buffers, and every function of the file but check_disk_change, which does nothing.
-- Fuel bounds the loops that sleep, since they may wait for ever: the result `none` means that the
-- task still waits. For the walk along a hash queue and the search along the ring, the number of
-- buffers is enough; for buffer_init, a round for each block of memory. What happens while a task
-- sleeps, ll_rw_block and sync_inodes are parameters.
--
-- Files on blocks. `Blocks` has _bmap and bmap (fs/inode.c) and, in `Blocks.Truncate`, fs/truncate.c;
-- `Reading` has file_read (fs/file_dev.c) and sys_read (fs/read_write.c). They read blocks through the
-- interface `BlockLayer`; `IsReader` is what a task that holds one
-- buffer at most relies on, and `Tests.OneReader` shows it of the modelled cache. The number of
-- bytes to read is enough fuel for file_read, which reads a byte at least in each round. Numbers of the file
-- system are not bounded in width where the code does not cut them.
--
-- Bitmaps (fs/bitmap.c). `Bitmap` has free_block and free_inode over the interface `MapLayer`, whose
-- law for the bytes is `IsMapLayer`; the superblock that get_super gives is an argument.
--
-- Requests (kernel/blk_drv/ll_rw_blk.c). `Requests` is the array of requests, the current one of each
-- device and the block cache. The number of requests is enough fuel for the search of a place in a
-- queue; loops that sleep have fuel as in the block cache. What a device does when it is started is a
-- parameter.
--
-- Formatted output (kernel/vsprintf.c). `Print` has vsprintf and _sprintnum on lists of characters; the
-- number itself is enough fuel for the loop over its digits.
--
-- Not modelled: the drivers (the rest of kernel/blk_drv), names of files (fs/namei.c), the table of
-- inodes in memory and the superblocks (the rest of fs/inode.c, fs/super.c), assembly and start-up
-- code, and the user library.
--
-- `Run` is the result of code that may call `panic` (kernel/panic.c), which never returns.
-- `Base` holds the names that all files share. Messages on the screen and on the serial line are
-- left out everywhere, and so are the TLB flush and interrupt flags. Tests and examples are in
-- `Tests`.
pub mod Base
pub mod Run
pub mod Mm
pub mod Sched
pub mod Errno
pub mod Proc
pub mod System
pub mod Fork
pub mod Wait
pub mod Signal
pub mod Print
pub mod Files
pub mod Tty
pub mod Console
pub mod Line
pub mod Keyboard
pub mod Cache
pub mod Blocks
pub mod Reading
pub mod Requests
pub mod Bitmap
mod Tests
