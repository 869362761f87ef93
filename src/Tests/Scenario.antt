-- ===== src/Tests/Scenario.antt =====
-- Runs of a server with a buffer of two jobs and one worker.
use multithreaded_network_jo.Prelude.{
  ℕ, List, [], ◌∷◌, ◌++◌, ◌≡◌, refl, ok, codes, replicate, Bytes, same_text, to_string,
}
use multithreaded_network_jo.Server.State.{
  ThreadId, main_thread, controller_thread, worker_thread, lock, cond_wait, wake, signal, broadcast,
  send_message, c_str, Server,
}
use multithreaded_network_jo.Commands.{get_client_command_mode, issue_job}
use multithreaded_network_jo.Tools.StringEditor.{get_first_word, remove_first_word, find}
use multithreaded_network_jo.Tools.WaitingBufferQueue.{insert_job_triplate, get_job_triplate}
use multithreaded_network_jo.Server.Choice.{
  Choice, proceeds, creates, accepts, receives, spawns, wakes_spuriously,
}
use multithreaded_network_jo.Server.System.{System, initial, run, thread_step, main_step}
use multithreaded_network_jo.Server.Controller.{controller_step}
use multithreaded_network_jo.Server.Worker.{worker_step, create_output_response}
use multithreaded_network_jo.Server.Handlers.{Free}

abbrev pub idle_server : Server
idle_server = (initial 2 1).server

pub idle_server-Free : Free idle_server
unfolding initial
idle_server-Free m = refl

pub is_issue : get_client_command_mode (codes "issueJob ls") ≡ issue_job
unfolding get_client_command_mode get_first_word find same_text
is_issue = refl

abbrev pub main_moves : ℕ → List (ThreadId × Choice)
main_moves k = replicate k (main_thread, proceeds)

abbrev pub client_moves : ℕ → ℕ → List (ThreadId × Choice)
client_moves i k = replicate k (controller_thread i, proceeds)

abbrev pub worker_moves : ℕ → List (ThreadId × Choice)
worker_moves k = replicate k (worker_thread 0, proceeds)

-- The main thread creates the worker, accepts a client at socket 7 and waits; the client's
-- controller receives the command.
abbrev pub one_client : Bytes → List (ThreadId × Choice)
one_client command =
    (main_thread, creates) ∷ main_moves 2
    ++ ((main_thread, accepts 7) ∷ (main_thread, proceeds) ∷ (main_thread, creates) ∷ main_moves 2)
    ++ ((controller_thread 0, proceeds) ∷ (controller_thread 0, receives command) ∷ [])

-- The job is submitted, and the worker runs it to the end.
abbrev pub one_job : List (ThreadId × Choice)
one_job =
    one_client (codes "issueJob ls")
    ++ (client_moves 0 13 ++ (worker_moves 10 ++ ((worker_thread 0, spawns) ∷ [])))

-- The end of a schedule, for a buffer of `n` jobs and `w` workers.
unfoldable pub end_from : ℕ → ℕ → List (ThreadId × Choice) → System
unfolding run initial thread_step main_step controller_step worker_step lock cond_wait wake signal
    broadcast send_message c_str get_client_command_mode same_text get_first_word remove_first_word
    find insert_job_triplate get_job_triplate to_string create_output_response
end_from n w moves = elim (run moves (initial n w)) [ ok y ↦ y | _ ↦ initial n w ]

unfoldable pub end_of : List (ThreadId × Choice) → System
unfolding end_from
end_of moves = end_from 2 1 moves

abbrev pub invalid_client : System
invalid_client = end_of (one_client (codes "hello"))

abbrev pub job_running : System
job_running = end_of one_job

pub invalid_client-run : run (one_client (codes "hello")) (initial 2 1) ≡ ok invalid_client
unfolding end_of
invalid_client-run = refl

pub job_running-run : run one_job (initial 2 1) ≡ ok job_running
unfolding end_of
job_running-run = refl

-- The main thread has locked its mutex, and the controller of its client has not begun.
abbrev pub handing_over : List (ThreadId × Choice)
handing_over =
    (main_thread, creates) ∷ main_moves 2
    ++ ((main_thread, accepts 7) ∷ (main_thread, proceeds) ∷ (main_thread, creates) ∷ main_moves 1)

abbrev pub main_locked : System
main_locked = end_of handing_over

pub main_locked-run : run handing_over (initial 2 1) ≡ ok main_locked
unfolding end_of
main_locked-run = refl

-- The worker waits for a job; a client sends `exit`, and its controller sets the server to stop. The
-- worker wakes, and has unlocked its mutex once.
abbrev pub stopping : List (ThreadId × Choice)
stopping =
    one_client (codes "exit")
    ++ (worker_moves 3
        ++ (client_moves 0 11 ++ ((worker_thread 0, wakes_spuriously) ∷ worker_moves 2)))

abbrev pub worker_stopping : System
worker_stopping = end_of stopping

pub worker_stopping-run : run stopping (initial 2 1) ≡ ok worker_stopping
unfolding end_of
worker_stopping-run = refl
