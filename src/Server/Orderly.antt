-- ===== src/Server/Orderly.antt =====
-- When the methods of the waiting buffer in src/Tools/waitingBufferQueue.cpp may be taken for single
-- steps. Each of them is several statements on one vector. A controller inserts and a worker takes
-- under `mutex_jobInsertion`, but `stop`, `exit` and `poll` call them under no mutex.
pub mod Apart
pub mod Schedules
use multithreaded_network_jo.Prelude.{ℕ, ◌≡◌, ◌≢◌, Bool, true, false}
use multithreaded_network_jo.Server.State.{ThreadId, main_thread, controller_thread, worker_thread}
use multithreaded_network_jo.Server.Controller
use multithreaded_network_jo.Server.Worker
use multithreaded_network_jo.Server.System.{System, Reach, start, next}

-- A controller at a call of `removeJobTriplateByID`, `getJobTriplate` or `at`, with no mutex.
abbrev pub controller_unlocked : Controller.Pc → Bool
controller_unlocked Controller.stop_remove = true
controller_unlocked Controller.drain_take = true
controller_unlocked (Controller.poll_loop i n) = true
controller_unlocked _ = false

abbrev pub unlocked_call : System → ThreadId → Bool
unlocked_call y (controller_thread i) = controller_unlocked (y.controllers i).pc
unlocked_call y _ = false

abbrev pub controller_calls : Controller.Pc → Bool
controller_calls (Controller.insert j) = true
controller_calls pc = controller_unlocked pc

abbrev pub worker_calls : Worker.Pc → Bool
worker_calls Worker.take = true
worker_calls _ = false

-- The thread is at a call that reads or changes the vector.
abbrev pub in_buffer : System → ThreadId → Bool
in_buffer y main_thread = false
in_buffer y (controller_thread i) = controller_calls (y.controllers i).pc
in_buffer y (worker_thread k) = worker_calls (y.workers k)

-- While a thread is at a call with no mutex, no other is at any.
abbrev pub Undisturbed : System → Type 0
Undisturbed y = (t u : ThreadId) → t ≢ u → unlocked_call y t ≡ true → in_buffer y u ≡ false

-- No two threads are at such calls at once, so that each call is one step to the others.
abbrev pub OneAtATime : System → Type 0
OneAtATime y = (t u : ThreadId) → t ≢ u → in_buffer y t ≡ true → in_buffer y u ≡ false

-- No call with no mutex is disturbed in any state on the way to a reachable state.
abbrev pub Orderly : {n w : ℕ} {y : System} → Reach n w y → Type 0
Orderly {y = y} (start e) = Undisturbed y
Orderly {y = y} (next t ch r st) = Undisturbed y × Orderly r
