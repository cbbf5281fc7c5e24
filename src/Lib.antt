-- ===== src/Lib.antt =====
-- OSaSP: the programs of a course on operating systems, each in a directory of its own. They share no
-- code. What is modelled of them, and where:
--
--   Threads    `Threads of execution, interaction and synchronization/src`: producer and consumer threads
--              over one circular queue. `Threads.Message` is message.c (calculate_hash, create_message);
--              `Threads.Ring` is the circular buffer that queue_sem.c and queue_cond.c both hold;
--              `Threads.Sem` is lab 5.1, queue_sem.c with the threads of thread_funcs.c that use
--              semaphores; `Threads.Cond` is lab 5.2, queue_cond.c with the threads that use condition
--              variables. The functions of main.c that act on a queue stand with it, and
--              `Threads.Slots` is its table of threads.
--   Processes  `Producer-consumer problem for processes/src`: producer and consumer processes over a queue
--              in shared memory. `Processes.Checksum` and `Processes.Buffer` are shared_buffer_types.c,
--              with generate_and_fill_message and process_and_verify_message; `Processes.System` is the
--              children of producer_functions.c and consumer_functions.c with the semaphores of
--              system_management.c; `Processes.Control` is the main process of app.c.
--   Records    `Read:write locks/src`: editor.c, in which several editors change one file of records.
--              `Records` is do_put, `Records.Input` and `Records.Fetch` are do_get and do_list, and
--              `Records.Generation` is generation.c.
--   Sorting    `Working with memory-mapped files/src`: sort_index.c, the work of its threads on the array.
--              `Sorting.Merge` is about merge, `Sorting.Workers` about what the threads do together in
--              any order, `Sorting.Whole` about their phases; `Sorting.File` is main, and gen.c.
--   Walk       `dirwalk/src`: main.c, the filter, the list of paths and the walk.
--   Sockets    `Sockets. Interprocess communication/src`: server.c and client.c. `Sockets.Text` is the
--              handling of strings; `Sockets.Server` is the paths and the listing of a folder, with
--              `Sockets.Server.Session` for the commands and the loop of client_thread and
--              `Sockets.Server.Shutdown` for main; `Sockets.Client` is the reading of lines up to a prompt
--              and `Sockets.Client.Script` the typed lines, the scripts and the main loop;
--              `Sockets.Exchange` puts the two together.
--   Signals    `Interaction and synchronization of processes/src`: `Signals` is the table of children of
--              parent.c, `Signals.Commands` its input and main, and `Signals.Child` is child.c.
--   Environment `The concept of processes/src`: parent.c, which makes an environment from a file and
--              starts children with it, and child.c, which shows it.
--   Base       what these share: Boolean tests, lists as C arrays, integers, bytes, indices that go
--              round, and families of threads by number.
--
-- How the code is modelled. A struct is a record, a function is a function from the state to the state,
-- and a thread or a process is a program counter with its locals. A step of a thread ends where another
-- one may run: at a call on a semaphore, at a wait, and where a mutex is released; so a section under a
-- mutex is one step, except in `Processes`, where the mutex is itself a semaphore of the state, every
-- call on it is a step, and SIGKILL also comes between two stores to the queue. A run is a list of actions in any order, with the answers that the system
-- gives (whether `malloc` succeeds, how a wait ends, that a process is killed). An access outside a
-- buffer, and in `Processes` the exit of a function, is `none`.
--
-- What is not under these directories is a parameter: `rand` and `rand_r` are any function from the
-- generator's state to a number and the next state, fresh memory holds anything, the file system of
-- `dirwalk` is two functions of a path, of which `opendir` also depends on how many directories are
-- open, and that of the server is four, `getenv` is a function of a name, and the `qsort` of
-- sort_index.c is any function that permutes. What `poll`, `select`, `recv`, `waitpid` and the users give
-- is a list of rounds.
--
-- Numbers are natural numbers with the wrap-around of C written out where a value can reach it: the
-- hashes are computed in 32 bits and stored in 16, bytes in 8, the inventory number in 32. The totals,
-- which the programs only print, are not bounded.
--
-- Loops are recursion on the rounds left, which the source bounds. Fuel stands in four places: the
-- questions of do_get, where one more than the characters left is enough; the recursion of traverse_dir,
-- where PATH_MAX levels are enough as long as no directory has a path of 4095 characters; the client's
-- wait for a prompt, where one more than the bytes of the stream is enough; and the deletion of all
-- children, where their number is.
--
-- Not modelled: printing and logging, sleeping, the terminal settings and the menus, and the set-up of
-- sockets and of signal handlers; the barriers of sort_index.c, between which the claims of blocks are
-- any order, and its mappings behind the first; SIGCHLD in the parent of `Signals` in the middle of
-- `case_plus` and of its loops; a `send` of the server that blocks; and view.c of
-- `Working with memory-mapped files`.
pub mod Base
pub mod Threads
pub mod Processes
pub mod Sorting
pub mod Records
pub mod Walk
pub mod Signals
pub mod Sockets
pub mod Environment
