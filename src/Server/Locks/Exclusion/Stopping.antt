-- ===== src/Server/Locks/Exclusion/Stopping.antt =====
-- What becomes of the workers of src/Server/server.cpp when the server stops.
use multithreaded_network_jo.Prelude.{
  ℕ, suc, ◌<◌, ◌≡◌, ◌≢◌, refl, arith, Option, none, some, true, false, Bool-cases, inl, inr, ok,
  fault, foreign_unlock, >>=-eq-ok, ◌∙◌, ap, if◌then◌else◌,
}
use multithreaded_network_jo.Server.State.{
  ThreadId, controller_thread, worker_thread, same_thread, mutex_worker, Server, lock, unlock,
  unlock_own, cond_wait, wake, signal, send_message,
}
use multithreaded_network_jo.Server.Choice.{Choice}
use multithreaded_network_jo.Server.Worker
use multithreaded_network_jo.Server.Worker.{worker_step}
use multithreaded_network_jo.Server.System.{
  System, MainPc, listen, join, clean_up, returned, main_step_at, thread_step, Reach, initial,
}
use multithreaded_network_jo.Server.Induction.{Keeps, Reach-Keeps}
use multithreaded_network_jo.Server.Locks.{worker_holds, Owns}
use multithreaded_network_jo.Server.Locks.Threads.{unlock_own-ok, same_thread→eq}
use multithreaded_network_jo.Server.Locks.Exclusion.{
  Locked, Keeps-Locked, initial-Locked, Reach-Owns,
}
use multithreaded_network_jo.Server.Counters.Pool.{main-counters, controller-counters, worker-pool}

unlock_own-foreign :
    (t : ThreadId) (s : Server)
    → s.owner mutex_worker ≢ some t
    → unlock_own mutex_worker t s ≡ fault foreign_unlock
unfolding unlock_own
unlock_own-foreign t s ne = owner_cases (s.owner mutex_worker) refl
  where
    owner_cases :
        (o : Option ThreadId)
        → s.owner mutex_worker ≡ o
        → (elim o [
          | none ↦ fault foreign_unlock
          | some u ↦ if same_thread u t then ok (unlock mutex_worker s) else fault foreign_unlock
        ])
          ≡ fault foreign_unlock
    owner_cases none e = refl
    owner_cases (some u) e = elim (Bool-cases (same_thread u t)) [
      | inl same ↦ absurd (ne (e ∙ ap some (same_thread→eq u t same)))
      | inr other ↦ ground arith
    ]

-- A worker that has found the server stopping runs into undefined behaviour, in every reachable state
-- and whatever the other threads do: it unlocks `mutex_worker`, which it does not own any more.
pub stopping_worker_faults :
    {n w : ℕ} {y : System}
    → Reach n w y
    → (i : ℕ) (ch : Choice) → y.workers i ≡ Worker.second_unlock
    → thread_step (worker_thread i) ch y ≡ fault foreign_unlock
unfolding thread_step worker_step
stopping_worker_faults {y} r i ch at_unlock =
    let books = Reach-Owns r (worker_thread i) mutex_worker in
    let foreign : unlock_own mutex_worker (worker_thread i) y.server ≡ fault foreign_unlock =
      unlock_own-foreign (worker_thread i) y.server (λ e. ground (arith, books.0 e)) in
    rw (at_unlock, worker_step, foreign)

-- The main thread has not got past the first worker that it joins.
abbrev AtWork : MainPc → Type 0
AtWork (join i) = i ≡ 0
AtWork clean_up = ⊥
AtWork (returned answer) = answer ≡ false
AtWork _ = Unit

record Going (w : ℕ) (y : System) : Type 0 where
  pub locked : Locked y
  pub pool : y.server.thread_pool_size ≡ w
  pub at_work : AtWork y.main
  pub going : (i : ℕ) → y.workers i ≢ Worker.exited

worker-going :
    (pc : Worker.Pc) (ch : Choice) (t : ThreadId) (s : Server) {r : Server × Worker.Pc}
    → worker_step pc ch t s ≡ ok r
    → Owns s t (worker_holds pc) mutex_worker
    → r.1 ≢ Worker.exited
unfolding worker_step lock unlock cond_wait wake signal send_message
worker-going Worker.second_unlock ch t s h o =
    let (s', e, last) = >>=-eq-ok (unlock_own mutex_worker t s) _ h in
    let (mine, same) = unlock_own-ok mutex_worker t s e in ground (arith, mine, same)
worker-going Worker.unborn ch t s h o = ground arith
worker-going _ ch t s h o = ground arith

main-going :
    (pc : MainPc) (ch : Choice) (y : System) {z : System}
    → main_step_at pc ch y ≡ ok z
    → 0 < y.server.thread_pool_size
    → AtWork pc
    → ((i : ℕ) → y.workers i ≢ Worker.exited)
    → AtWork z.main × ((i : ℕ) → z.workers i ≢ Worker.exited)
unfolding main_step_at lock wake
main-going (join i) ch y h some_worker at going =
    (ground (arith, going i), λ j. ground (arith, going i, going j))
main-going clean_up ch y h some_worker at going = absurd at
main-going listen ch y h some_worker at going = (ground arith, λ j. ground (arith, going j))
main-going _ ch y h some_worker at going = (ground arith, λ j. ground (arith, going j))

Keeps-Going : (w : ℕ) → 0 < w → Keeps (Going w)
Keeps-Going w some_worker = record {
  main = λ ch y z h k.
      let (at, workers) = main-going y.main ch y h (rw k.pool some_worker) k.at_work k.going in
      record {
        locked = Keeps-Locked.main ch y z h k.locked;
        pool = (main-counters y.main ch y h).2 ∙ k.pool;
        at_work = at;
        going = workers;
      };
  controller = λ i ch y r h k. record {
    locked = Keeps-Locked.controller i ch y r h k.locked;
    pool =
        (controller-counters (y.controllers i).pc ch (controller_thread i) y.server
          (y.controllers i) h).2
        ∙ k.pool;
    at_work = k.at_work;
    going = k.going;
  };
  worker = λ i ch y r h k. record {
    locked = Keeps-Locked.worker i ch y r h k.locked;
    pool = worker-pool (y.workers i) ch (worker_thread i) y.server h ∙ k.pool;
    at_work = k.at_work;
    going = λ j. ground (
      arith,
      k.going j,
      worker-going (y.workers i) ch (worker_thread i) y.server h
          (k.locked.owns (worker_thread i) mutex_worker),
    );
  };
}

-- In every state that a server with at least one worker reaches without undefined behaviour, no
-- worker has ended, the main thread has joined none, and `run` has not returned true.
pub run_never_returns :
    {n w : ℕ} {y : System}
    → Reach n w y
    → 0 < w
    → ((i : ℕ) → y.workers i ≢ Worker.exited)
      × ((i : ℕ) → y.main ≢ join (suc i))
      × (y.main ≢ clean_up)
      × (y.main ≢ returned true)
unfolding initial
run_never_returns {n} {w} {y} r some_worker =
    let k = Reach-Keeps (Keeps-Going w some_worker) (initial-Going n w) r in
    (
      k.going,
      λ i e. ground (arith, k.at_work),
      λ e. ground (arith, k.at_work),
      λ e. ground (arith, k.at_work),
    )
  where
    initial-Going : (n w : ℕ) → Going w (initial n w)
    initial-Going n w = record {
      locked = initial-Locked n w;
      pool = refl;
      at_work = tt;
      going = λ i e. cc;
    }
