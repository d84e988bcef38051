-- ===== src/Lib.antt =====
-- IVOS: the green thread library in scheduler/, the reader of FAT16 images in fat/ and the web server
-- in http_server/.
--
-- The first program runs up to five threads on stacks of their own and switches between them on a timer
-- signal. `gt_schedule` asks one of three algorithms for the next slot of the thread table, accounts
-- the time of the thread that stops and of the one that starts, and switches the registers. Semaphores
-- mark threads blocked and ready again, with a linked queue of the waiting ones.
--
-- The second program mounts an image of a card, lists directories, changes between them and copies files
-- out, following the chains of clusters in the allocation table.
--
-- The web server forks client processes before it listens. A queue holds the numbers of those that are
-- available; the server takes the first for each connection, sends it the descriptor, and answers by
-- itself when it gets none. A client process reads the head of a request, answers with a file, the
-- output of a script or the receipt of an upload, and reports itself when the connection is closed. All
-- send log messages to a logger process. `launch` is the server from its constructor to its destructor.
--
-- Which file models what (each part's theorems stand in the modules below it, its tests in Tests):
--   Base: names shared by all, Boolean tests, integers for C's signed types, and `Outcome`, how a run
--     of a C function ends: a result, a fault (undefined behaviour) or a loop that has used up its
--     rounds.
--   Scheduler/Time: the `timeval` helpers of scheduler/gthr.c; Time/Laws relates them to microseconds.
--   Scheduler/Stats: `update_running_stats`; Stats/Extrema about minimum and maximum.
--   Scheduler/Thread: `struct gt` and the enums of scheduler/gthr.h, and `Kernel`, the globals of
--     scheduler/gthr.c with the machine: registers, memory, signal mask, timer, and what `malloc` and
--     `free` saw. `gt_table` is a function of the slot number; a `struct gt *` is a slot number.
--   Scheduler/Account: `init_thread_stats` and `update_thread_state`; Account/Fixed has what they leave.
--   Scheduler/Policy: `round_robin`, `round_robin_prio`, `lottery`, `set_scheduling_algorithm`;
--     Policy/Slots has the slots in cyclic order, Policy/Pass one pass over the table, Policy/Aging a
--     search as a thread that waits sees it.
--   Scheduler/Switch: `gt_switch` of scheduler/gthr_switch.S, `gt_reset_sig`, `gt_schedule`,
--     `gt_return`, `gt_stop`; Switch/Next is about all three algorithms at once, Switch/Waiting about how
--     long a thread waits, Switch/Registers about what it finds when it is back.
--   Scheduler/Create: `gt_init` and `gt_create`.
--   Queue: scheduler/g_queue.c over an explicit heap; Queue/Chain says what list a queue stands for.
--   Semaphore: scheduler/g_semaphore.c, a client of Queue and of `update_thread_state`;
--     Semaphore/Ideal is what it promises, Semaphore/Balance relates the two, and Semaphore/Refined says
--     that the promise is kept.
--   Scheduler/Report: `gt_print_stats`; Report/Rows says which threads its tables have.
--   Scheduler/Sleep: `gt_uninterruptible_nanosleep`.
--   Scheduler/Main: `main` of scheduler/main.c; Main/Started about the options, Main/Threads about the
--     threads that it creates.
--   Scheduler/Work: the functions `f` and `g` of scheduler/main.c, one statement after the other, and
--     the signal handlers. Work/Reaching has the states of the program while its threads run `f`;
--     Work/Sound says what holds in them, Work/Waits and Work/Posts that the two semaphore calls keep
--     it, Work/Steps all of `f`, Work/Begun the start, Work/Invariant every state; Work/Totals counts
--     threads; Work/Exclusion is about who has the semaphore, Work/Handing about giving
--     it to the next, Work/Intrusion about a thread that goes on blocked, Work/Lines and Work/Printed about the output.
--   Scheduler/Demo: kernels and times that the tests share.
--   Fat/Disk: the image as `fseek` and `fread` see it.
--   Fat/Entry: the directory entries of fat/fat.h, `get_attributes` and `print_entry` of fat/fat.c.
--   Fat/Volume: what `main` of fat/fat.c reads, and fat/fat_helpers.c; Volume/Chain says which clusters
--     a chain has, Volume/Layout where the regions lie.
--   Fat/Listing: `list_files`. Fat/Search: the loops that look for an entry. Fat/Reading: `read`.
--     Fat/Directory: `change_directory` and the variables of the program. Fat/Tree: `print_tree`;
--     Tree/Forest has the trees of an image. Fat/Commands: `run` and `print_info`; Commands/Typed about
--     commands as they are typed in. Fat/Main: `main`, with Main/Session about a whole run. Fat/Demo:
--     small images.
--   Http/Text: `std::string` as bytes, and `string_split` of http_server/http/Request.cpp; Text/Find,
--     Text/Split, Text/Join and Text/After about searching, cutting and joining, Text/Decimal about
--     numbers in decimal.
--   Http/Request: http_server/http/Request.cpp; Request/Lines has what a client prints, Request/Printing
--     that it is read back, Request/Blank where its blank line is, Request/Refused what ends the process.
--   Http/Response: http_server/http/Response.cpp; Response/Framing is a reader's view of a response.
--   Http/Client: the connection, http_server/http/Client.cpp; Http/Upload: its `handle_post`;
--     Upload/Body is about the loop over the reads.
--   Http/Worker: `handle_communication` of http_server/core/Server.cpp for one connection;
--     Worker/Closing about closing it, Worker/Answers about a whole connection, Worker/Scripts about
--     scripts.
--   Http/Server: `run`, `start_client_processes`, `recv_fd` of http_server/core/Server.cpp with the
--     client processes as the server sees them: a run is a list of events, which are turns of the
--     server's loop and steps of the processes in any order. Server/Queue counts numbers in the queue,
--     Server/Orderly has the invariant, its modules Turns and Processes that it is kept, Server/Frame
--     what is never written, Server/Starting the first state and the reached ones, Server/Dispatch a
--     turn of the loop, Server/Lost a process that is not used any more, Server/Cycle a connection from
--     the turn to the report.
--   Http/System: what the system holds for the server, and calls that end the program.
--   Http/Life: constructor, `configure_ssl`, `set_up_socket`, `run` around its loop and destructor of
--     http_server/core/Server.cpp, as http_server/main.cpp calls them. Life/Working is about calls that
--     work, Life/Ending about a whole run, Life/Keeping about what is not given back, Life/Stranded about
--     an exit within `run`, Life/Killed about processes that could not be forked; Life/Refined relates
--     the start of the processes here and in Http/Server.
--   Http/Logging: http_server/logging/ and `start_logger_process`; Logging/Messages what is logged.
--   Http/Main: http_server/main.cpp and the configuration of the server.
--
-- Conventions. The clock, `rand`, `malloc` and what other threads do are arguments. A `while` loop
-- takes a number of rounds; five rounds are enough for the round robins wherever they return at once
-- round the table, and for `round_robin_prio` with a blocked current thread those that a ready thread is
-- still to wait, as the theorems say. `int` and `long` values are integers or numbers without a
-- bound: priorities, skip counts and tickets are never negative, and the sums are far from 2^31 unless
-- a slot is skipped, or threads are created, two thousand million times. `unsigned long` counters and
-- addresses wrap at 2^64. A `double` is the expression that computes it, so nothing is claimed about
-- rounding. `struct gt` has its fields about run and wait slices as two records. `gt_reset_sig` is
-- modelled for SIGALRM, its only argument in the program; `cpu` is the registers at the entry of
-- `gt_switch`, with the return address on top of the stack; its stores and loads are at the places of
-- the fields in `struct gt_context`.
--
-- In fat/, a loop over a chain takes a number of rounds as well, and one more than the clusters of the
-- chain is enough; `print_tree` takes one for each level besides. The program itself has no bound, and
-- a circular chain keeps it going. A read behind the end of the image, where the program goes on with
-- what its buffer held, is a fault, and so is a place that does not fit an `int` or a name given to
-- `read` that has nothing but dots. Null file pointers and null names, which `run` never passes, are left
-- out. Output is a result: lines as records, file
-- contents as bytes. Lines that are typed in are a list; when it is used up `run` goes on asking.
--
-- In http_server/, what TLS reads, whether it accepts, what scripts print, the files and what fork,
-- accept, mq_receive and sendmsg do are arguments, and a connection is a list of rounds, one for each
-- request, a run of the server a list of events. A program that has used up its list is shown as one
-- that has not returned, and so is an event that cannot happen yet, such as taking a number from an
-- empty queue. An exception that nothing catches, an access out of range and the use of a value that was
-- never set are faults. The copy of a head has no zero at its end; what lies behind it in memory is an
-- argument. Files are smaller than 2 GiB, and numbers that atoi reads have no sign. `string_split` takes
-- one round more than the text has bytes, which is enough.
--
-- The threads of scheduler/main.c take one statement after the other, each in one step: sem_wait and
-- sem_post block the signals, and printf and nanosleep are taken as one. The timer may come between any
-- two. That a thread which sem_wait has left blocked is not at the end of its first sleep before the
-- timer has come is a hypothesis, `IsGiven.timely`: the timer has 500 microseconds, the sleep 50
-- milliseconds. In Http/Life the system is the child processes, the open descriptors and the names of
-- the queues; a process that does not stop keeps the server waiting, which is not an end of the run.
--
-- Not modelled: the registration of signal handlers, but for its failure in `run`, and `srand`; colours
-- and rules of the printed statistics; of fat/fat.c the empty `write` and `delete`; of http_server/ the
-- texts of the log messages, `get_ip` and `get_port`, which only these use, the prologue of a client
-- process, and the pages in http_server/www/.
pub mod Base
pub mod Fat
pub mod Http
pub mod Queue
pub mod Scheduler
pub mod Semaphore
