-- ===== src/Server/Locks/Release.antt =====
-- How long a thread of src/Server stays between its lock of a mutex and its unlock of it.
use multithreaded_network_jo.Prelude.{
  ℕ, zero, suc, ◌≤◌, ◌<◌, ◌≡◌, refl, arith, Option, none, some, replicate, ◌⊎◌, inl, inr, Outcome,
  ok, blocked, fault, empty_front, ◌>>=◌,
}
use multithreaded_network_jo.Tools.WaitingBufferQueue.{get_job_triplate}
use multithreaded_network_jo.Server.State.{
  ThreadId, main_thread, controller_thread, worker_thread, MutexName, unlock_own, Server, lock,
  unlock, cond_wait, wake, signal, broadcast,
}
use multithreaded_network_jo.Server.Choice.{Choice}
use multithreaded_network_jo.Server.Controller
use multithreaded_network_jo.Server.Controller.{Controller, controller_step, step_at}
use multithreaded_network_jo.Server.Worker
use multithreaded_network_jo.Server.Worker.{worker_step}
use multithreaded_network_jo.Server.System.{
  System, MainPc, wait_check, stop_broadcast, main_step_at, main_step, thread_step, Reach, run,
}
use multithreaded_network_jo.Server.Locks.{controller_holds, worker_holds, main_holds, holds}
use multithreaded_network_jo.Server.Locks.Exclusion.{Reach-Owns}
use multithreaded_network_jo.Server.Induction.{update_same}

-- How many steps a thread in a section makes at most, until the section is left.
abbrev controller_left : Controller.Pc → ℕ
controller_left Controller.continue_set = 2
controller_left Controller.full_check = 2
controller_left Controller.full_stop_check = 4
controller_left Controller.cancel_respond = 3
controller_left Controller.cancel_text = 2
controller_left (Controller.insert _) = 2
controller_left (Controller.level_signal _ _) = 2
controller_left (Controller.stop_notify _) = 4
controller_left (Controller.notify_size _) = 3
controller_left (Controller.notify_text _) = 2
controller_left Controller.exit_broadcast = 2
controller_left Controller.jobs_check = 2
controller_left Controller.exit_continue_set = 2
controller_left _ = 1

abbrev worker_left : Worker.Pc → ℕ
worker_left Worker.idle_check = 2
worker_left Worker.stop_check = 3
worker_left Worker.take = 2
worker_left (Worker.notify _) = 2
worker_left Worker.finish = 3
worker_left Worker.finish_busy = 2
worker_left _ = 1

abbrev main_left : MainPc → ℕ
main_left wait_check = 2
main_left stop_broadcast = 2
main_left _ = 1

abbrev left : System → ThreadId → ℕ
left y main_thread = main_left y.main
left y (controller_thread i) = controller_left (y.controllers i).pc
left y (worker_thread i) = worker_left (y.workers i)

-- Not blocked: the code goes on, to a state with `P`, or takes the front of an empty waiting buffer.
abbrev pub Proceeds {ℓ} : {A : Type ℓ} → Outcome A → (A → Type 0) → Type 0
Proceeds (ok a) P = P a
Proceeds blocked P = ⊥
Proceeds (fault e) P = e ≡ empty_front

-- A thread that had the mutex is closer to the end of its section, or has given the mutex up.
abbrev Closer : MutexName → Option MutexName → ℕ → ℕ → Server → Type 0
Closer m held before after s = ((held ≡ some m) × (after < before)) ⊎ (s.owner m ≡ none)

controller-Closer :
    (pc : Controller.Pc) (ch : Choice) (t : ThreadId) (s : Server) (c : Controller) (m : MutexName)
    → controller_holds pc ≡ some m
    → Proceeds
        (step_at pc ch t s c)
        (λ r. Closer m (controller_holds r.1.pc) (controller_left pc) (controller_left r.1.pc) r.0)
unfolding step_at lock unlock cond_wait wake signal broadcast
controller-Closer Controller.unborn ch t s c m h = ground arith
controller-Closer _ ch t s c m h = ground arith

worker-Closer :
    (pc : Worker.Pc) (ch : Choice) (t : ThreadId) (s : Server) (m : MutexName)
    → worker_holds pc ≡ some m
    → Proceeds
        (worker_step pc ch t s)
        (λ r. Closer m (worker_holds r.1) (worker_left pc) (worker_left r.1) r.0)
unfolding worker_step unlock_own lock unlock cond_wait wake signal get_job_triplate
worker-Closer Worker.unborn ch t s m h = ground arith
worker-Closer _ ch t s m h = ground arith

main-Closer :
    (pc : MainPc) (ch : Choice) (y : System) (m : MutexName)
    → main_holds pc ≡ some m
    → Proceeds
        (main_step_at pc ch y)
        (λ z. Closer m (main_holds z.main) (main_left pc) (main_left z.main) z.server)
unfolding main_step_at lock unlock cond_wait wake broadcast
main-Closer wait_check ch y m h = ground arith
main-Closer _ ch y m h = ground arith

Proceeds->>= {ℓ κ} :
    {A : Type ℓ} {B : Type κ} (P : A → Type 0) (Q : B → Type 0) (o : Outcome A) (f : A → B)
    → Proceeds o P
    → ((a : A) → P a → Q (f a))
    → Proceeds (o >>= λ a. ok (f a)) Q
Proceeds->>= P Q (ok a) f p k = k a p
Proceeds->>= P Q blocked f p k = p
Proceeds->>= P Q (fault e) f p k = p

thread-Closer :
    (t : ThreadId) (ch : Choice) (y : System) (m : MutexName)
    → holds y t ≡ some m
    → Proceeds (thread_step t ch y) (λ z. Closer m (holds z t) (left y t) (left z t) z.server)
unfolding thread_step main_step controller_step
thread-Closer main_thread ch y m h = main-Closer y.main ch y m h
thread-Closer (controller_thread i) ch y m h =
    Proceeds->>= _ _
      (step_at (y.controllers i).pc ch (controller_thread i) y.server (y.controllers i)) _
      (controller-Closer (y.controllers i).pc ch (controller_thread i) y.server (y.controllers i) m
        h)
      (λ r closer. rw (update_same y.controllers i r.1) closer)
thread-Closer (worker_thread i) ch y m h =
    Proceeds->>= _ _ (worker_step (y.workers i) ch (worker_thread i) y.server) _
      (worker-Closer (y.workers i) ch (worker_thread i) y.server m h)
      (λ r closer. rw (update_same y.workers i r.1) closer)

left-pos : (y : System) (t : ThreadId) → (0 < left y t) × (left y t ≤ 4)
left-pos y main_thread = ground arith
left-pos y (controller_thread i) = ground arith
left-pos y (worker_thread i) = ground arith

-- Within so many steps.
Frees : ℕ → ThreadId → Choice → MutexName → System → Type 0
Frees k t ch m y =
    (j : ℕ) × (j ≤ k) × Proceeds (run (replicate j (t, ch)) y) (λ z. z.server.owner m ≡ none)

left-Frees :
    (k : ℕ) (t : ThreadId) (ch : Choice) (m : MutexName) (y : System)
    → holds y t ≡ some m
    → left y t ≤ k
    → Frees k t ch m y
unfolding run Frees
left-Frees zero t ch m y h less = absurd (omega (arith, left-pos y t))
left-Frees (suc k) t ch m y h less =
    by_step (thread_step t ch y) refl (thread-Closer t ch y m h) (λ z. left-Frees k t ch m z)
  where
    by_step :
        (o : Outcome System)
        → thread_step t ch y ≡ o
        → Proceeds o (λ z. Closer m (holds z t) (left y t) (left z t) z.server)
        → ((z : System) → holds z t ≡ some m → left z t ≤ k → Frees k t ch m z)
        → Frees (suc k) t ch m y
    by_step (ok z) e (inl (still, fewer)) later =
        let (j, le, frees) = later z still (omega arith) in (suc j, omega arith, rw e frees)
    by_step (ok z) e (inr free) later = (1, omega arith, rw e free)
    by_step blocked e p later = elim p [ ]
    by_step (fault x) e p later = (1, omega arith, rw e p)

-- No deadlock over the mutexes: in every reachable state a thread that has a mutex is not blocked,
-- whatever the other threads are waiting for, and if it is let go on it gives the mutex up within
-- four steps of its own, unless it is a worker that takes the front of an empty waiting buffer.
pub mutex_given_up :
    {n w : ℕ} {y : System}
    → Reach n w y
    → (t : ThreadId) (ch : Choice) (m : MutexName) → y.server.owner m ≡ some t
    → (j : ℕ) × (j ≤ 4) × Proceeds (run (replicate j (t, ch)) y) (λ z. z.server.owner m ≡ none)
unfolding Frees
mutex_given_up {y = y} r t ch m owned =
    let p = left-pos y t in
    let (j, le, frees) =
      left-Frees (left y t) t ch m y ((Reach-Owns r t m).0 owned) (omega arith) in
    (j, omega arith, frees)
