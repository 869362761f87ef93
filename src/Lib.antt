-- ===== src/Lib.antt =====
-- The job executor: clients send shell jobs and control commands to a server, which queues the jobs
-- in a bounded buffer and runs them in a pool of worker threads, each job in a process of its own,
-- and sends the outputs back.
--
-- The program's parts and the files that model them:
--   src/Tools/stringEditor.cpp        Tools/StringEditor: the two word helpers
--   src/Tools/waitingBufferQueue.cpp  Tools/WaitingBufferQueue: the static class Queue as a record that
--                                     the operations take and return
--   src/Server/commands.cpp, include/clientCommands.h
--                                     Commands: the modes, the job triplates
--   src/Server/server.cpp             Server/State: the static members, the mutexes, the condition
--                                     variables, the packets sent; Server/System: `init`, `run` and all
--                                     threads together; Server/Worker: `WorkerThread`;
--                                     Server/Cleanup: `removeTeporaryDirectory`; Server/Startup:
--                                     `createSocket` and `attachSocketToPort`; Server/Shutdown:
--                                     `destroy`
--   src/App/jobExecutorServer.cpp     Server/Startup: `main` and the command line
--   src/Server/Threads/controllerThread.cpp
--                                     Server/Controller: one thread for each client; Server/Messages:
--                                     the texts that it sends
--   src/Server/Threads/workerThread.cpp
--                                     Server/Worker: a job as steps of the worker thread; Server/Jobs: the
--                                     arguments that `getJobArguments` makes of a job; Server/Files:
--                                     `readFile` and `createOutputFile`; Server/Execution: `executeJob`
--                                     in the parent and in the child, with both ends of the pipe
--   src/Client/clientReceivers.cpp    Client/Receivers
--   src/Client/client.cpp, src/App/jobCommander.cpp
--                                     Client/Process
-- The other folders under Server prove things of these definitions: Induction and Births carry the
-- proofs over all interleavings; Locks, Handshake, Counters, QueueSafety, Once and Answers hold the
-- invariants; Orderly says when the methods of the buffer may be taken for single steps, and keeps the
-- buffer well-formed then; Locks/Release has what a thread with a mutex does when it is let go on; Handlers
-- follows each handler, and a worker, through a run of its own; Races follows two threads that come
-- between each other. Conversation joins a controller, a worker and the receivers of the client
-- through the packets on their socket: Conversation/Overtaken has the messages in the other order,
-- Conversation/Mixed has one inside the other; Conversation/Level, Removed, Listing and Ending
-- follow `setConcurrency`, `stop`, `poll` and `exit` from the words on the client's command line, and
-- Conversation/Cancelled a submission that an `exit` cancels.
-- Prelude/Memory has the arrays and the C strings.
--
-- How the parts interact. The main thread accepts a client, creates a controller thread and waits
-- under `mutex_serverContinue` until the controller lets it go on. A controller reads one command,
-- and puts a job into the waiting buffer, takes one out, lists the buffer, sets the concurrency or
-- stops the server. The workers wait under `mutex_worker` for a job and a free place among the
-- running jobs. The client sends one command, and prints the answers.
--
-- State and steps. The static members and the locals that live across a step are fields of records,
-- and each thread has a program counter. One step is one call of a pthread function, one statement
-- on shared data, or a run of statements that nobody else can see (so the test of a condition and
-- the wait that follows it are two steps, unless all who change the condition hold the mutex, as
-- for `continueExecution`). The two calls of `send` that make one message are two steps.
-- `thread_step` lets any thread move: `Reach` holds the states of all interleavings, any number of
-- clients included. The answers of the operating system and of the clients are the values of
-- `Choice`. In Server/Execution and Server/Startup these answers are records of what each call
-- returns, and Server/Execution/Parent shows which values of `Choice` they come to. Memory is
-- sequentially consistent. A method of the waiting buffer is one step. The insertion of a
-- controller and the removal of a worker hold one mutex, so that this is what the code does; but
-- `stop`, `exit` and `poll` call the methods with no mutex, and where such a call overlaps with
-- another the code can do what no order of these steps does. `Server.Orderly.Orderly` excludes the
-- runs in which a call with no mutex overlaps with another call, and the theorems about the buffer
-- and the jobs in all interleavings assume it. A read of the size alone is one word and belongs to
-- no method. What a data race on a counter does below the level of these steps is not modelled. A
-- wait on a condition variable can end without a signal. A `send` of the server always sends
-- everything. What C and C++ leave undefined, and exceptions that nobody catches, are faults, and
-- the model goes no further there.
--
-- Numbers are natural numbers; `unsigned int` is kept below 2^32 by `%`, and `int` and what `stoi`
-- reads are in Prelude/Int and Prelude/Stoi. Texts are lists of byte values, and what is behind the
-- first zero byte of a C string is cut off where the code does so. What an array holds before it is
-- written to is given by a parameter, an allocator.
--
-- Fuel. The search of the waiting buffer has one unit more than the buffer has entries, and an
-- element is passed or found at each; the digits of a number have as many units as the number. The
-- loop of `readFile` takes the number of its rounds, and each of them reads at least one byte of a
-- file that keeps its size, so that more rounds than the file has bytes are enough. The loops of
-- the threads are steps and have no fuel; the theorems of Handlers name the number of moves.
--
-- Not modelled: the console output; what the program of a job does, and the child of a job behind a failed `execvp`, where
-- it goes on as a copy of the worker. Which child `wait(NULL)` returns for is part of the
-- environment too: it shows in what the file of the output holds when it is read. The last step of `run` takes the outcome of the removal of the output directory as an answer of
-- the environment.
pub mod Prelude
pub mod Tools
pub mod Commands
pub mod Server
pub mod Client
pub mod Conversation
mod Tests
