-- ===== src/Lib.antt =====
-- A verification library for the programs of an operating systems course. Each program stands in a
-- folder of its own (cw01 to cw12, Funkcje) and runs by itself; the programs do not call one
-- another. Modelled are those with a state, a protocol or an algorithm worth a proof:
--
--   cw12/assignment   a chat over UDP: server.c and client.c
--   cw11/assignment   the chat over TCP: server.c and client.c
--   cw10/assignment   a hospital: a doctor, patients and pharmacists under one mutex
--   cw09/assignment   an integral, summed by threads
--   cw08/assignment   a print queue in shared memory, with three semaphores
--   cw07/assignment   a chat over System V message queues: server.c and client.c
--   cw06/assignment   zad1.c, an integral, summed by processes that answer over pipes
--   cw05/assignment   signals with acknowledgement: catcher.c and sender.c
--   cw03/assignment   flipper.c, which reverses the lines of text files
--   cw03/lab          readCompare.c, which reads a file in several ways
--   cw02/assignment   collatz.c and the loop of its client.c
--   Funkcje/Mutex     main.c, which joins its threads as they end, and zad1.c, whose threads print the
--                     words of a dictionary in turn
--   Funkcje/Semafor POSIX, Funkcje/Semafor SysV
--                     a parent and a child that write to one file under a semaphore
--
-- The files.
--
--   Prelude           the native numbers with Boolean tests, lists measured by them, and the scans of
--                     arrays (find_index for a loop with a return, count for a counting loop, total
--                     for the sum of a weight over processes)
--   CString           C strings as the bytes in front of the terminator; strcmp, strncmp, strchr,
--                     snprintf, and decimal for %d
--   UdpChat           cw12. Table: client_t, the table `clients` with client_count, register_client,
--                     remove_client, find_client_by_*, ping_clients. Messages: handle_message with
--                     broadcast_message and send_to_client, and `step`, one datagram in main or one
--                     round of the ping thread. Client: register_with_server, receive_messages and the
--                     input loop of client.c. The other files are proofs: Changes (what a step
--                     does to the table), WellFormed, Registration, Names, Lookup, Delivery,
--                     Ping, Survival, KeepAlive, Bounds, Handshake (both programs together),
--                     ClientLoops
--   TcpChat           cw11. Table: the same table with descriptors; accept_client is the loop of
--                     main. Messages: handle_client (the test of its loop, and what
--                     follows its recv) and `step`. Client: the parts of
--                     client.c behind its connection. Proofs: Descriptors and Accounts (what is
--                     opened, closed and held), Names and Unique, Delivery, Handshake, Session
--   Hospital          cw10. Threads: doctor_thread, patient_thread and pharmacist_thread as functions, a
--                     call for each stretch of code with the mutex held. System: `run`, any
--                     sequence of such stretches. Proofs: Invariant, Room, Runs, Consultations, Queue
--   PrintQueue        cw08. System: enqueue_job, dequeue_job, user_process and printer_process as a
--                     relation between states, one statement a step, with the interleavings
--                     of the five processes, from semaphores that no earlier run has left
--                     behind. Proofs: Window, Invariant, Safety, Progress
--   Integral          cw09. Threads: thread_function and the loops of main, over any type with the
--                     operations of long double. Proofs: Ranges (how the intervals are shared out) and
--                     Exact (the total, were the arithmetic exact)
--   PipeIntegral      cw06. Area: rectangle_area and the part of each child, over any type with the
--                     operations of double. System: the pipes and what stands in them, with the writes
--                     of the children and the reads of the parent. Proofs: Invariant, Outcome
--   MessageQueue      cw07. Server: the loop of main of server.c with broadcast_message. Client: the
--                     messages that client.c sends and what it makes of its queue. Proofs: Registry
--                     (the table of the server), Inbox and Delivery (both programs together)
--   Signals           cw05. Catcher: sig_handler of catcher.c on its globals. System: both main functions
--                     and the signals between them, as `step` on an event. Proofs: History,
--                     Invariant, Exchange, Outcome
--   ThreadJoin        Funkcje/Mutex/main.c. System: threadFunc and main as functions of the next
--                     statement, `step` on an event, and the runs. Proofs: Invariant, Threads,
--                     Joining, Main, Outcome, Progress, Termination
--   WordCycle         Funkcje/Mutex/zad1.c. System: fun_watka, one statement at a time. Proofs:
--                     Invariant, Outcome
--   Writers           Funkcje/Semafor POSIX/main.c and Funkcje/Semafor SysV/main.c. Programs: the sequences
--                     of calls of parent and child. Machine: what a call does to the semaphore, the file
--                     and the terminal. Proofs: Shape (the
--                     discipline of the programs), Invariant, Steps, Start, Progress, Outcome
--   Readers           cw03/lab/readCompare.c. Loops: chunk and openClose. Proofs: Outputs
--   Flipper           cw03. Lines: reverse_line, process_file, process_directory on bytes. Proofs:
--                     Reverse, Files, Directory
--   Collatz           cw02. Defs: collatz_conjecture, test_collatz_convergence, the loop of the client.
--                     Proofs: Orbit, Overflow
--
-- The file Tests of each folder runs the definitions on concrete inputs.
--
-- Representation. A struct is a record and an array the list of its slots; a read out of range is
-- `none`. Numbers are natural numbers: where the source has -1 for a missing index the model has
-- `none`, and a decrement stands only where the variable is proved positive. Signed overflow is a
-- result in Collatz; the other counters are bounded by the sizes of their arrays or by the number
-- of threads. A write behind the end of the buffer `response` is a result of LIST in both
-- chats. What the system calls return (the time, the bytes received, the success of a send, the
-- entries of a directory) is an input. The recursion is structural but for reverse_loop, which
-- runs on fuel: the length of the line less one, while the loop stops after half of
-- that; decimal, which prints an int and has fuel for its ten digits; converge, whose rounds
-- are the source's own bound max_iter; the loops of Readers, which end within one round more than
-- the file has bytes, since each round but the last reads one; and rectangle_area, which needs one
-- round more than there are points below the end. The last two give `none` where fuel is missing.
--
-- Concurrency. In PrintQueue every statement on shared data is a step. In Hospital a step is all that a
-- thread does between two points where it gives up the mutex, and pthread_cond_wait may return
-- without a signal. In ThreadJoin and WordCycle a step is a statement on shared data, but the loop of
-- ThreadJoin that joins is one, since it runs with the mutex held; there, too, pthread_cond_wait
-- may return early. In Writers and PipeIntegral a step is a system call, in Signals a statement of
-- either main function or the delivery of a signal, with its handler. In the chats a step is one
-- message, connection or ping round, and in cw11 also the test of a client's thread whether its slot
-- is active: what handle_message and handle_client read without the mutex while they handle a
-- message is not interleaved with the ping thread.
--
-- Not modelled: creating sockets, queues, shared memory and threads, and the branches where that
-- fails; most texts on the terminal; signals other than those of cw05 and the effect of the handlers
-- of the two chat clients; cw01, cw04, sender.c and receiver.c of cw06, the other labs and the rest
-- of Funkcje, which are short demonstrations of system calls; oneLetterChunk of cw03/lab, whose
-- behaviour is undefined.
pub mod Prelude
pub mod CString
pub mod UdpChat
pub mod PrintQueue
pub mod Flipper
pub mod Collatz
pub mod Hospital
pub mod TcpChat
pub mod MessageQueue
pub mod Integral
pub mod PipeIntegral
pub mod ThreadJoin
pub mod Readers
pub mod Signals
pub mod WordCycle
pub mod Writers
