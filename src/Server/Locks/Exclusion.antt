-- ===== src/Server/Locks/Exclusion.antt =====
-- Mutual exclusion under every interleaving of the threads of src/Server.
pub mod Stopping
use multithreaded_network_jo.Prelude.{
  ℕ, ◌≡◌, ◌≢◌, refl, ok, Option, some, subst, sym, ◌∙◌, inl, inr, ap,
}
use multithreaded_network_jo.Server.State.{
  ThreadId, main_thread, controller_thread, worker_thread, MutexName, Server,
}
use multithreaded_network_jo.Server.Choice.{Choice}
use multithreaded_network_jo.Server.Controller.{Controller}
use multithreaded_network_jo.Server.Worker
use multithreaded_network_jo.Server.Worker.{worker_step}
use multithreaded_network_jo.Server.Births.{
  Births, Reach-Births, Keeps-Births, main-controllers_change, main-workers_change,
}
use multithreaded_network_jo.Server.Induction.{
  update_same, update_other, ThreadId-discrete, Keeps, Reach-Keeps, after_controller, after_worker,
}
use multithreaded_network_jo.Server.System.{System, main_step_at, Reach, initial}
use multithreaded_network_jo.Server.Locks.{controller_holds, worker_holds, holds, Owns, Frame}
use multithreaded_network_jo.Server.Locks.Threads.{
  controller-Owns, controller-Frame, worker-Owns, worker-Frame, main-Owns, main-Frame,
}

pub record Locked (y : System) : Type 0 where
  pub births : Births y
  pub owns : (t : ThreadId) (m : MutexName) → Owns y.server t (holds y t) m

-- What another thread owns survives a step that keeps its own books.
carry :
    (t u : ThreadId) (s s' : Server) (m : MutexName) (held held' : Option MutexName)
    → u ≢ t
    → Frame t s s' m
    → held' ≡ held
    → Owns s u held m
    → Owns s' u held' m
carry t u s s' m held held' ne frame same o =
    (λ e. same ∙ o.0 ((frame u ne).0 e), λ e. (frame u ne).1 (o.1 (sym same ∙ e)))

-- A new controller holds nothing, like the one that was not there before; so does a new worker.
main-holds :
    (ch : Choice) (y : System) {z : System}
    → main_step_at y.main ch y ≡ ok z
    → Births y
    → (t : ThreadId) → t ≢ main_thread
    → holds z t ≡ holds y t
main-holds ch y h b main_thread ne = absurd (ne refl)
main-holds ch y h b (controller_thread i) ne = elim (main-controllers_change y.main ch y h b i) [
  | inl same ↦ ap (λ c. controller_holds c.pc) same
  | inr (old, new) ↦ rw (old, new)
]
main-holds ch y h b (worker_thread i) ne =
    elim (main-workers_change y.main ch y h b.unborn_workers i) [
      | inl same ↦ ap worker_holds same
      | inr (old, new) ↦ rw (old, new)
    ]

controller-holds :
    (i : ℕ) (y : System) (r : Server × Controller) (t : ThreadId)
    → t ≢ controller_thread i
    → holds (after_controller y i r) t ≡ holds y t
controller-holds i y r main_thread ne = refl
controller-holds i y r (controller_thread j) ne =
    ap (λ c. controller_holds c.pc)
      (update_other y.controllers i j r.1 (λ e. ne (ap controller_thread e)))
controller-holds i y r (worker_thread j) ne = refl

worker-holds :
    (i : ℕ) (y : System) (r : Server × Worker.Pc) (t : ThreadId)
    → t ≢ worker_thread i
    → holds (after_worker y i r) t ≡ holds y t
worker-holds i y r main_thread ne = refl
worker-holds i y r (controller_thread j) ne = refl
worker-holds i y r (worker_thread j) ne =
    ap worker_holds (update_other y.workers i j r.1 (λ e. ne (ap worker_thread e)))

-- The books of every thread after a step of `t`, from those of `t` itself and the frame.
books_after :
    (t : ThreadId) (y z : System) (m : MutexName)
    → Owns z.server t (holds z t) m
    → Frame t y.server z.server m
    → ((u : ThreadId) → u ≢ t → holds z u ≡ holds y u)
    → ((u : ThreadId) → Owns y.server u (holds y u) m)
    → (u : ThreadId) → Owns z.server u (holds z u) m
books_after t y z m mine frame same old u = elim (ThreadId-discrete u t) [
  | yes e ↦ subst (λ v. Owns z.server v (holds z v) m) (sym e) mine
  | no ne ↦ carry t u y.server z.server m (holds y u) (holds z u) ne frame (same u ne) (old u)
]

Keeps-Locked : Keeps Locked
Keeps-Locked = record {
  main = λ ch y z h k. record {
    births = Keeps-Births.main ch y z h k.births;
    owns = λ t m.
        books_after main_thread y z m (main-Owns y.main ch y h m (k.owns main_thread m))
          (main-Frame y.main ch y h m (k.owns main_thread m)) (main-holds ch y h k.births)
          (λ u. k.owns u m) t;
  };
  controller = λ i ch y r h k. record {
    births = Keeps-Births.controller i ch y r h k.births;
    owns = λ t m.
        books_after (controller_thread i) y (after_controller y i r) m
          (subst (λ c. Owns r.0 (controller_thread i) (controller_holds c.pc) m)
            (sym (update_same y.controllers i r.1))
            (controller-Owns (y.controllers i).pc ch (controller_thread i) y.server
              (y.controllers i) h m (k.owns (controller_thread i) m)))
          (controller-Frame (y.controllers i).pc ch (controller_thread i) y.server (y.controllers i)
            h m (k.owns (controller_thread i) m))
          (controller-holds i y r) (λ u. k.owns u m) t;
  };
  worker = λ i ch y r h k. record {
    births = Keeps-Births.worker i ch y r h k.births;
    owns = λ t m.
        books_after (worker_thread i) y (after_worker y i r) m
          (subst (λ c. Owns r.0 (worker_thread i) (worker_holds c) m)
            (sym (update_same y.workers i r.1))
            (worker-Owns (y.workers i) ch (worker_thread i) y.server h m
              (k.owns (worker_thread i) m)))
          (worker-Frame (y.workers i) ch (worker_thread i) y.server h m
            (k.owns (worker_thread i) m))
          (worker-holds i y r) (λ u. k.owns u m) t;
  };
}

initial-Locked : (n w : ℕ) → Locked (initial n w)
unfolding initial
initial-Locked n w = record { births = Reach-Births (Reach.start refl); owns = none_owned }
  where
    none_owned :
        (t : ThreadId) (m : MutexName) → Owns (initial n w).server t (holds (initial n w) t) m
    none_owned main_thread m = (λ e. cc, λ e. cc)
    none_owned (controller_thread i) m = (λ e. cc, λ e. cc)
    none_owned (worker_thread i) m = (λ e. cc, λ e. cc)

-- The books of the mutexes are right in every reachable state: a thread is the owner of a mutex
-- exactly if its place in the code lies between its lock and its unlock of that mutex.
pub Reach-Owns :
    {n w : ℕ} {y : System}
    → Reach n w y
    → (t : ThreadId) (m : MutexName) → Owns y.server t (holds y t) m
Reach-Owns {n} {w} r = (Reach-Keeps Keeps-Locked (initial-Locked n w) r).owns

-- No two threads of the server are ever in sections that the same mutex guards, in any reachable
-- state, for any number of clients and workers.
pub mutual_exclusion :
    {n w : ℕ} {y : System}
    → Reach n w y
    → (m : MutexName) (t u : ThreadId) → holds y t ≡ some m
    → holds y u ≡ some m
    → t ≡ u
mutual_exclusion r m t u p q =
    let a = (Reach-Owns r t m).1 p in let b = (Reach-Owns r u m).1 q in cc
