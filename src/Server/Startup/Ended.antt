-- ===== src/Server/Startup/Ended.antt =====
-- The end of src/App/jobExecutorServer.cpp: `main` calls `destroy` when `run` has returned.
use multithreaded_network_jo.Prelude.{
  ℕ, ◌≡◌, refl, arith, some, [], ◌∷◌, false, ok, fault, destroys_used, inl, inr,
}
use multithreaded_network_jo.Server.State.{main_thread, worker_thread, cond_worker}
use multithreaded_network_jo.Server.Choice.{accept_fails}
use multithreaded_network_jo.Server.Worker
use multithreaded_network_jo.Server.System.{
  System, Reach, next, run, thread_step, main_step, main_step_at, accept, returned,
}
use multithreaded_network_jo.Server.Handlers.{Returns}
use multithreaded_network_jo.Server.Shutdown.Destroyed.{destroy_defined_iff}
use multithreaded_network_jo.Server.Startup.{main_ends}

-- A server whose `accept` fails while one of its workers waits for a job: `run` returns false, and
-- the `destroy` that `main` calls then is undefined.
pub accept_failure_undefined :
    {n w : ℕ} {y : System} (started : ℕ × System)
    → Reach n w y
    → (k : ℕ) → y.main ≡ accept
    → y.workers k ≡ Worker.idle_wait
    → Returns
        (run ((main_thread, accept_fails) ∷ []) y)
        (λ z. (z.main ≡ returned false) × (main_ends (some started) z ≡ fault destroys_used))
unfolding main_ends run thread_step main_step main_step_at
accept_failure_undefined {y = y} started r k at asleep =
    let last : System = record y { main = returned false } in
    let moves : thread_step main_thread accept_fails y ≡ ok last = rw at refl in
    let (defined, iff) = destroy_defined_iff (next main_thread accept_fails r moves) in
    rw at (elim defined [
      | inl fine ↦
          absurd (let none = ((iff.0 fine) (worker_thread k)).1 cond_worker in ground (arith, none))
      | inr undefined ↦ (refl, rw undefined refl)
    ])
