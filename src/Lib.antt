-- ===== src/Lib.antt =====
-- The MERRY virtual machine: a verification library of its C sources.
--
-- The program is a virtual machine. Cores (merry/merry_core.c) fetch instructions from an
-- instruction memory (merry/merry_memory.c) and work on registers, a private stack, a stack of
-- return addresses (merry/merry_stack.c) and the shared data memory (merry/merry_dmemory.c). A
-- core that needs something of the machine's operating system pushes a request through the
-- request handler (merry/merry_request_hdlr.c), which keeps the requests in a circular queue
-- (merry/merry_request_queue.c, merry/tools/merry_queue.h) and wakes the operating system
-- (merry/merry_os.c). That one starts the cores on the program that the reader
-- (merry/merry_nreader.c) has loaded from an input file, and serves their requests: more cores
-- and memory, files (merry/abs/merry_fio.c) and shared libraries (merry/abs/merry_dynl.c).
--
-- Common: names and lemmas that all parts share: Boolean tests, lists with native indices,
-- 64-bit words. Block: blocks of bytes, little-endian numbers in them (Endian) and runs of
-- bytes (Runs).
--
-- DMemory: merry/merry_dmemory.c and merry/dev/merry_dmemory.h. The record DMemory is
-- `MerryDMemory`; its pages are functions from the offset to the byte. Access holds the reads
-- and writes, Address the computed addresses, Bytes the copies over several pages. The abstract
-- view is a linear memory (Flat): Linear, Words, Copies and CopyIn state the accesses on it;
-- Inv is the invariant, Build the construction.
--
-- Memory: merry/merry_memory.c and merry/dev/merry_memory.h, in the same way, with pages of
-- 64-bit words; Laws and Build.
--
-- Stack: merry/merry_stack.c. The abstract view is the list of values, top first (Lifo); Depth
-- is the stack of return addresses as a core sets it up.
--
-- Queue: merry/merry_request_queue.c over merry/tools/merry_queue.h. Nodes are named by the
-- order of their allocation; the abstract view is the list of requests, oldest first (Fifo).
-- Build is the construction, Panic the emergency push.
--
-- RequestHdlr: merry/merry_request_hdlr.c. Each function is one step under the handler's mutex;
-- the signals and waits it asks for are a list of effects.
--
-- Core: merry/merry_core.c and merry/core/merry_core.h. The record Core is `MerryCore` with the
-- request handler that it reaches. The instructions `merry_execute_x` are functions `x` from
-- core to core in Arith, ArithMem, Moves, Bits, StackOps, LoadStore, Control and Floats; so are
-- the cases of `merry_runCore` that have no function of their own. Opcodes is
-- merry/core/merry_opcodes.h. Console has the console instructions: the bytes that wait on
-- stdin and those written to stdout are lists in the core, and what getchar, putchar, fscanf
-- and fprintf make of them is the record Stdio. Switch is the switch of `merry_runCore` in
-- groups that follow the source, Run the fetch and the loop, which may run for ever and takes a
-- number of rounds. Lifecycle is `merry_core_init` and `merry_core_destroy` by their pointers.
-- Asks is about what an instruction asks of the request handler. The other children are about
-- what instructions do together.
--
-- Reader: merry/merry_nreader.c and merry/dev/merry_nreader.h, on a little-endian host. Reader
-- has the state, the header and the table of entry addresses, Load the rest of
-- `merry_reader_read_file`. Format describes input files as a writer would lay them out,
-- independently of the reader; Header, Entries, Parts and Program are about what the reader
-- makes of such a file, Loops about the ends of its loops, Release about `merry_destroy_reader`
-- by its pointers. Bytes that an fread puts behind the end of a block end the reading with an
-- outcome of their own. The pointers to pages are bytes in a table, as in the source, and the
-- memory behind them is a function.
--
-- Loader: merry/abs/merry_dynl.c. The table of shared libraries with its counters; Laws is its
-- invariant, Reload what is found by name. A write behind the end of the block of the table, or
-- of the name in an entry, sets `overrun`.
--
-- Os: merry/merry_os.c and merry/os/merry_os.h. The record Os is `struct Merry` with the
-- request handler and the loader, which are static in the source. File is
-- merry/abs/merry_fio.c, Requests the functions `merry_os_execute_request_x` as `execute_x`,
-- Run the loop of `merry_os_start_vm`, Init `merry_os_init` on what the reader has loaded
-- (Started is about both). Machine is a step relation: the loop takes a round, or a core works,
-- pushes a request or panics, in any order; a core's work may change its own record and the
-- memory in any way. Cores is the machine whose cores run the model of merry/merry_core.c: a
-- round of a core takes what it shares from the operating system's record and puts it back;
-- Halting and Faulting follow an instruction in memory to the end of the machine. Frames and
-- Counted are about what a request keeps, Failures about errors, NewCore about cores and pages
-- that are added, Drain about the end of the loop. Messages has what an error prints, and the
-- request for a new process; Release is `merry_os_destroy` and the failures of `merry_os_init`
-- by their pointers. A mutex that its own thread locks again is a round without a result
-- (`blocked`).
--
-- Options: merry/merry.c and merry/tools/merry.h. The structure of the options starts as malloc
-- left it; Parse is about the command lines that the help describes.
--
-- Thread: merry/abs/merry_thread.c on Linux, by what the process holds; Balance is about what
-- is given back.
--
-- Main: main.c, from the command line to the exit code: it calls Options, Reader, Os and Thread
-- as the source does. World has what the process meets, munmap of the machine's pages included.
-- Code is about the exit code and the release at the end.
--
-- Errno: merry/merry_errno.c and merry/tools/merry_errno.h; Messages compares the messages with
-- the comments of the header. Time: merry/abs/merry_time.c, but for the sleeps.
--
-- Every result that the host decides is an argument: whether malloc, realloc or mmap succeed,
-- what a new page holds, what the processor's flags are, and what the compiled arithmetic of
-- floats gives. Where C leaves the behaviour open, the model names it: an access through a NULL
-- array sets `crashed`, a shift by 64 is an argument of the host, and the cells of a core's
-- stack have an index without bound, so that an access behind its 131072 cells is seen as one.
-- Unsigned wrap-around is written out with `% 2 ^ w`. The loop of the operating system may run
-- for ever and takes a number of rounds. The loop over the bytes of a section has one round
-- more than the section has bytes. The other loops are recursion on the number of rounds; the
-- one loop whose end depends on the state, in `merry_requestHdlr_kill_requests`, has one round
-- more of fuel than there are stored requests, and each round takes one away.
--
-- Not modelled: two rounds of cores or of the operating system at the same time, the release of
-- the pages of the memories, of queues and of stacks beyond their pointers, the reader's
-- release of a file that it could not read, cores that run on while the machine is released,
-- pages that mmap could not map, big-endian hosts and Windows, the text of the help, and the
-- wrappers of processes and sleeps in merry/abs (merry_process.c, merry_time.c).
pub mod Common
pub mod Block
pub mod DMemory
pub mod Memory
pub mod Stack
pub mod Queue
pub mod RequestHdlr
pub mod Core
pub mod Reader
pub mod Loader
pub mod Os
pub mod Options
pub mod Thread
pub mod Main
pub mod Errno
pub mod Time
