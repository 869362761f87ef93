-- ===== src/Server/Handlers/Stop.antt =====
-- The `stop` command: `removeJobFromBufferQueue`.
use multithreaded_network_jo.Prelude.{
  ℕ, ◌<◌, ◌^◌, ◌≡◌, arith, List, ◌++◌, Option, none, some, true, Bytes, length,
}
use multithreaded_network_jo.Commands.{JobTriplate, stop}
use multithreaded_network_jo.Tools.StringEditor.{remove_first_word, space}
use multithreaded_network_jo.Tools.WaitingBufferQueue.Fifo.{extract}
use multithreaded_network_jo.Tools.WaitingBufferQueue.Search.{
  queue_of, remove_job_triplate_by_id-extract,
}
use multithreaded_network_jo.Server.State.{
  ThreadId, mutex_server_continue, mutex_controller, MutexName, Server, Packet, lock, unlock,
  signal, send_message,
}
use multithreaded_network_jo.Server.Messages.{stop_message, removed_message}
use multithreaded_network_jo.Server.Controller
use multithreaded_network_jo.Server.Controller.{Controller, controller_step, step_at}
use multithreaded_network_jo.Server.Handlers.{solo, Returns, Free, message, send_all-append, begins}

-- What the clients are told: the one that asked, and the one whose job it was.
abbrev pub stop_messages : ℕ → Bytes → Option JobTriplate → List (ℕ × Packet)
stop_messages socket given none = message socket (stop_message given none)
stop_messages socket given (some j) =
    message socket (stop_message given (some j)) ++ message j.socket_id removed_message

-- How many moves that takes the controller.
abbrev pub stop_moves : Option JobTriplate → ℕ
stop_moves none = 9
stop_moves (some j) = 11

-- The server `s` after the whole handler, with the jobs `left` in its buffer, and its controller.
abbrev pub StopServed :
    ℕ → List JobTriplate → List (ℕ × Packet) → Server → Server × Controller → Type 0
StopServed n left told s r = record {
  ended : r.1.pc ≡ Controller.finished;
  removed : r.0.queue ≡ queue_of n left;
  told : r.0.sent ≡ s.sent ++ told;
  goes_on : r.0.continue_execution ≡ true;
  counters :
      (r.0.running_jobs ≡ s.running_jobs)
      × (r.0.busy_workers ≡ s.busy_workers)
      × (r.0.concurrency ≡ s.concurrency)
      × (r.0.jobs_entered ≡ s.jobs_entered);
  free : (m : MutexName) → r.0.owner m ≡ none;
}

-- A `stop` command, with no other thread moving and no mutex taken: the controller ends; the first
-- job with the given identifier has left the waiting buffer and no other has, the client that asked
-- is told whether there was one, and then the client of that job is told that it is removed. The
-- main thread may go on, no mutex stays taken, the counters of the running jobs, of the busy
-- workers and of the jobs, and the concurrency, are as before.
pub stop_removes :
    (t : ThreadId) (s : Server) (n socket : ℕ) (xs : List JobTriplate) (command : Bytes)
    → Free s
    → length xs < 2 ^ 32
    → let given = remove_first_word command space in
      let found = extract given xs in
      Returns
        (solo
          (stop_moves found.0)
          t
          (record s { queue = queue_of n xs })
          (begins socket command stop))
        (StopServed n found.1 (stop_messages socket given found.0) s)
unfolding solo controller_step step_at lock unlock signal send_message
stop_removes t s n socket xs command free h =
    let given = remove_first_word command space in
    ground (
      arith,
      free mutex_server_continue,
      free mutex_controller,
      free,
      remove_job_triplate_by_id-extract n given xs h,
      send_all-append s.sent (stop_messages socket given (extract given xs).0),
    )
