-- ===== src/Server/Once.antt =====
-- Where a job of src/Server is between the moment that it is given its identifier and the moment
-- that a worker starts a process for it.
pub mod Tokens
pub mod Starts
use multithreaded_network_jo.Prelude.{
  ℕ, zero, suc, ◌+◌, ◌≤◌, List, [], ◌∷◌, ◌++◌, Bool, ltb, leb, ◌&&◌, ok, if◌then◌else◌, Bytes,
  codes, to_string, same_text,
}
use multithreaded_network_jo.Commands.{JobTriplate}
use multithreaded_network_jo.Tools.WaitingBufferQueue.Weights.{weigh, weigh_found}
use multithreaded_network_jo.Server.State.{
  Server, ThreadId, main_thread, controller_thread, worker_thread,
}
use multithreaded_network_jo.Server.Choice.{Choice, spawns, spawn_fails}
use multithreaded_network_jo.Tools.WaitingBufferQueue.{get_job_triplate, remove_job_triplate_by_id}
use multithreaded_network_jo.Tools.StringEditor.{remove_first_word, space}
use multithreaded_network_jo.Server.Controller
use multithreaded_network_jo.Server.Controller.{Controller}
use multithreaded_network_jo.Server.Worker
use multithreaded_network_jo.Server.System.{System, Reach, start, next}
use multithreaded_network_jo.Server.Counters.{total}

-- The `k`th identifier that the server gives out.
abbrev pub identifier : ℕ → Bytes
identifier k = codes "job_" ++ to_string k

-- One for a job with that identifier.
unfoldable pub carries : ℕ → JobTriplate → ℕ
carries k j = if same_text j.job_id (identifier k) then 1 else 0

abbrev pub queued : ℕ → List JobTriplate → ℕ
queued k = weigh (carries k)

-- A controller that has made a triplate and not inserted it yet.
abbrev pub pending : ℕ → Controller.Pc → ℕ
pending k (Controller.insert_lock j) = carries k j
pending k (Controller.insert j) = carries k j
pending k _ = 0

-- A worker that has taken a triplate and not started its process yet.
abbrev pub taken : ℕ → Worker.Pc → ℕ
taken k (Worker.take_unlock j) = carries k j
taken k (Worker.notify_lock j) = carries k j
taken k (Worker.notify j) = carries k j
taken k (Worker.notify_unlock j) = carries k j
taken k (Worker.count_busy j) = carries k j
taken k (Worker.execute j) = carries k j
taken k _ = 0

-- In how many places a job with the `k`th identifier waits to be started, with `w` workers.
unfoldable pub waiting : ℕ → ℕ → System → ℕ
waiting k w y =
    total (λ c. pending k c.pc) y.accepted y.controllers
    + (queued k y.server.queue.buffer + total (taken k) w y.workers)

-- A step that starts a process for the job.
abbrev pub start_at : ℕ → Worker.Pc → Choice → ℕ
start_at k (Worker.execute j) spawns = carries k j
start_at k _ _ = 0

abbrev pub start_of : ℕ → ThreadId → Choice → System → ℕ
start_of k main_thread ch y = 0
start_of k (controller_thread i) ch y = 0
start_of k (worker_thread i) ch y = start_at k (y.workers i) ch

-- A step that takes the job away without starting a process for it: an insertion that the full buffer
-- drops, a removal by `stop`, the emptying of the buffer by `exit`, a `pipe` or `fork` that fails.
abbrev pub lost_at : ℕ → Controller.Pc → Server → Controller → ℕ
lost_at k (Controller.insert j) s c = if ltb s.queue.size s.queue.capacity then 0 else carries k j
lost_at k Controller.stop_remove s c =
    elim (remove_job_triplate_by_id (remove_first_word c.client_command space) s.queue) [
      | ok r ↦ weigh_found (carries k) r.0
      | _ ↦ 0
    ]
lost_at k Controller.drain_take s c = elim (get_job_triplate s.queue) [
  | ok r ↦ carries k r.0
  | _ ↦ 0
]
lost_at k _ s c = 0

abbrev pub given_up_at : ℕ → Worker.Pc → Choice → ℕ
given_up_at k (Worker.execute j) spawn_fails = carries k j
given_up_at k _ _ = 0

abbrev pub lost_by : ℕ → ThreadId → Choice → System → ℕ
lost_by k main_thread ch y = 0
lost_by k (controller_thread i) ch y = lost_at k (y.controllers i).pc y.server (y.controllers i)
lost_by k (worker_thread i) ch y = given_up_at k (y.workers i) ch

-- How often that has happened on the way to a state.
abbrev pub losses : ℕ → {n w : ℕ} {y : System} → Reach n w y → ℕ
losses k (start e) = 0
losses k (next {x} t ch r st) = losses k r + lost_by k t ch x

-- How often a process has been started for the job on the way to a state.
abbrev pub starts : ℕ → {n w : ℕ} {y : System} → Reach n w y → ℕ
starts k (start e) = 0
starts k (next {x} t ch r st) = starts k r + start_of k t ch x

-- Whether the `k`th identifier has been given out.
abbrev pub given_out : ℕ → ℕ → ℕ
given_out k entered = if ltb 0 k && leb k entered then 1 else 0

-- A controller that may still give out an identifier.
abbrev pub may_enter : Controller.Pc → ℕ
may_enter Controller.unborn = 1
may_enter Controller.start = 1
may_enter Controller.receive = 1
may_enter Controller.continue_lock = 1
may_enter Controller.continue_set = 1
may_enter Controller.continue_unlock = 1
may_enter Controller.full_lock = 1
may_enter Controller.full_check = 1
may_enter Controller.full_sleep = 1
may_enter Controller.full_wait = 1
may_enter Controller.full_stop_check = 1
may_enter Controller.full_unlock = 1
may_enter Controller.make_triplate = 1
may_enter _ = 0
