-- ===== src/Lib.antt =====
-- Verification of the course programs of the repository: the private branch
-- exchange, the compression utility, the memory allocator, the table of inodes
-- and the problem solver with its worker processes.
--
-- HW5-Private-Branch-Exchange-Telephone-System is a telephone server. src/pbx.c keeps the telephone
-- units and the table of extensions, and src/server.c runs a thread for each client that reads
-- commands and calls pbx.c.
--
-- Pbx/State: the structures TU and PBX, memory, semaphores and the network. A pointer is a number, the
--   heap maps it to a unit or to nothing, a semaphore is its value. A call returns with a new state,
--   faults (a pointer that leads nowhere, an index outside of the table) or blocks (a semaphore that
--   is 0). Whether a write to a client fails is a parameter, a function of all writes so far.
-- Pbx/Units: tu_pickup, tu_hangup, tu_dial, tu_chat, a function for each branch.
-- Pbx/Registry: pbx_init, pbx_register, pbx_unregister, pbx_shutdown, get_next_available_extension,
--   tu_fileno, tu_extension. What malloc returns is an argument.
-- Pbx/Notices: int_to_string, the names of the states (src/globals.c), the bytes of a notification.
-- Pbx/Pairing: the invariant. Pbx/Pickup, Hangup, Chat, Dial, Dial/Validity, and the children of
--   Pbx/Registry: what each operation does and that it keeps the invariant. Pbx/Histories: sequences
--   of calls.
-- Server: the readers of src/server.c, over the bytes that are still to come. A char is signed, so
--   that the byte 255 reads as EOF. Server/Lines, Commands, Extensions, Messages: what they read.
-- Server/Service: pbx_client_service. Its loop takes fuel, two rounds more than the client sends
--   bytes, since each round reads a byte or finds the end.
--
-- The extensions are 1024, the value of FD_SETSIZE. An int is a ℤ whose additions are taken to 32 bits
-- where the program does not bound them.
--
-- Not modelled of it: calls that interleave between two lock operations of different threads, the shared
-- flag found_EOF, signals and sockets, src/main.c, and the tester in util.
--
-- HW1-Compression-Decompression-Utility compresses with the Sequitur algorithm.
--
-- Sequitur/Memory: symbols and their storage (src/symbol.c). A pointer is an index of symbol_storage. A
--   call returns, faults (NULL, or an index outside of an array), aborts, or runs out of fuel.
-- Sequitur/Rules, Digrams, Algorithm: src/rules.c, src/digram_hash.c, src/sequitur.c. The size of the
--   digram table, MAX_DIGRAMS, is a parameter, so that examples can be computed.
-- Sequitur/Utf, Compress, Decompress, Options: src/comdec.c. A stream is a list of bytes. The depth of
--   check_digram, the length of the lists that are written and the work of expand are bounded by fuel;
--   running out of it is an outcome of its own. No theorem gives a sufficient fuel for them.
--   The loops that read are bounded by the length of the input, which each round shortens.
-- Not modelled of it: debug output, fflush, streams that are NULL.
--
-- HW4-Multi-process-Problem-Solver hands problems to worker processes.
--
-- Master: the handler sig_master_handler of src/master.c, with what waitpid reports as a list, and the
--   end of master, from the loop on that counts the workers that have ended, with the signals that
--   arrive as a list. Master/Reports: the handler, worker by worker. Master/Ending, Killed: the exit.
-- Master/Problems: src/problem.c, with the solvers as records of their methods, and src/trivial.c. The
--   loop that draws the type of a problem takes fuel: it ends only when a type that is enabled is drawn.
-- Master/Rounds: the part of the main loop that posts a result and cancels the other workers.
-- Master/Loop: the main loop, with assign_prob_to_worker and what init_workers leaves; a list holds the
--   signals that sigsuspend waits for, with what the pipes hold then. Master/Turns: an invariant that
--   each operation keeps holds when the loop ends. Master/Log, Sent, Break: three uses of it, and how
--   the loop ends. Master/Options: src/main.c, with what atoi makes of the arguments.
-- Miner: src/crypto_miner.c. The hash of libgcrypt is a parameter, and the flag that cancels a search is
--   a function of the round. The loop of solve takes fuel; the number of nonces is enough, as is proved.
--   Miner/Nonces: update_nonce is a counter. Miner/Digests: check_result counts zero bits. Miner/Found:
--   the search. Miner/Variants, Solutions: the variants of a problem, and what solves them.
-- Pipes: src/master_helper.c, and read_problem, write_result and write_fail of src/worker.c, on bytes; a
--   FILE reads up to 4096 bytes ahead. Pipes/Streams: the order of the bytes. Pipes/Objects, Layout: what
--   is written is read, as bytes and as the fields of include/polya.h. Pipes/Stale: the main loop reads
--   from the pipe of a worker that was canceled.
-- Worker: src/worker.c as steps, between which signals arrive. A worker is stopped by its own SIGSTOP
--   until SIGCONT. Worker/Invariant, Protocol: what holds after any events. Worker/Rounds: one round of
--   the loop. Worker/Ended: the signals by which the master makes the workers exit.
-- Not modelled of it: fork, exec and the set-up of the pipes, and the memory that is freed at the end.
--
-- HW2-Debugging prints directory trees. Inodes: the tables of inodes of src/hash.c, without its counters
--   for statistics, and with memory that is always allocated. Inodes/Entered: what it finds again.
--   The walk of the directories, src/vtree.c, is not modelled.
--
-- HW3-Dynamic-Memory-Allocator is a malloc with boundary tags and segregated free lists.
--
-- Allocator/Blocks: the words of the memory, headers, footers and links, by include/sfmm.h and the first
--   helpers of src/sfhelperfunctions.c. An address is a number, and memory maps it to the word of 8
--   bytes that starts there. NULL is 0. Allocator/Lists: the size classes and the free lists, the rest of
--   src/sfhelperfunctions.c. Allocator/Operations: src/sfmm.c.
--   The library sfutil, of which the repository has the object file only, is a parameter: the addresses
--   where the heap starts and ends, and whether it gives a page when it ends at an address.
-- Allocator/Sizes: the rounding of requests and the classes. Allocator/Tiling: the row of blocks that the
--   headers stand for, and its children: what each operation does to the row. Allocator/Growth: the loop
--   that grows the heap. Allocator/Payload: the last word of a payload, and sf_realloc.
-- Allocator/Rings: the free lists as rings that are linked both ways. Allocator/Rings/Remove, Front: one
--   list. Allocator/Rings/Table: all ten. Allocator/Rings/Frame, Wild, Insert,
--   Split, Place: what the headers leave of them, and sf_split and place on all ten lists.
-- The search of a list and the growth of the heap take fuel, and running out of it is an outcome; the
--   theorem on a heap that is exhausted holds for any fuel that is above the number of the pages and with
--   which the search ends. The loop of get_min_fib takes 64 rounds at most, which is enough for all sizes below 2 ^ 37.
-- Not modelled of it: debug output, and memcpy of areas that overlap.
--
-- Prelude: the names that all parts share, and facts on lists, tests and bits.
pub mod Prelude
pub mod Allocator
pub mod Inodes
pub mod Master
pub mod Miner
pub mod Pbx
pub mod Pipes
pub mod Sequitur
pub mod Server
pub mod Worker
