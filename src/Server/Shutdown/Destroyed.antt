-- ===== src/Server/Shutdown/Destroyed.antt =====
-- When `destroy` of src/Server/server.cpp is defined.
use multithreaded_network_jo.Prelude.{
  ℕ, ◌≡◌, ◌∙◌, arith, none, ok, fault, destroys_used, ◌⊎◌, inl, inr, Option-cases, ◌↔◌, dec_lt,
}
use multithreaded_network_jo.Server.State.{
  ThreadId, main_thread, controller_thread, worker_thread, MutexName, mutex_controller,
  mutex_worker, mutex_job_insertion, mutex_server_continue, mutex_all_jobs_done, CondName,
  cond_controller, cond_worker, cond_server_continue, cond_all_jobs_done, Server,
}
use multithreaded_network_jo.Server.Controller.{Controller}
use multithreaded_network_jo.Server.System.{System, Reach}
use multithreaded_network_jo.Server.Induction.{Reach-Keeps}
use multithreaded_network_jo.Server.Births.{Reach-Births}
use multithreaded_network_jo.Server.Locks.{holds}
use multithreaded_network_jo.Server.Locks.Exclusion.{Reach-Owns}
use multithreaded_network_jo.Server.Counters.Sums.{total-member, total-zero}
use multithreaded_network_jo.Server.Counters.Pool.{Keeps-Pool, initial-Pool}
use multithreaded_network_jo.Server.Shutdown.{destroy, controller_waits, worker_waits, waits}
use multithreaded_network_jo.Server.Shutdown.Waiting.{Reach-waiting}

destroy-ok_or_fault : (s : Server) → (destroy s ≡ ok s) ⊎ (destroy s ≡ fault destroys_used)
unfolding destroy
destroy-ok_or_fault s = ground arith

destroy-free : (s : Server) → destroy s ≡ ok s → (m : MutexName) → s.owner m ≡ none
unfolding destroy
destroy-free s h m = ground arith

destroy-nobody : (s : Server) → destroy s ≡ ok s → (v : CondName) → (s.cond v).waiting ≡ 0
unfolding destroy
destroy-nobody s h v = ground arith

destroy_unused :
    (s : Server)
    → ((m : MutexName) → s.owner m ≡ none)
    → ((v : CondName) → (s.cond v).waiting ≡ 0)
    → destroy s ≡ ok s
unfolding destroy
destroy_unused s free nobody = ground (
  arith,
  free mutex_controller,
  free mutex_worker,
  free mutex_job_insertion,
  free mutex_server_continue,
  free mutex_all_jobs_done,
  nobody cond_controller,
  nobody cond_worker,
  nobody cond_server_continue,
  nobody cond_all_jobs_done,
)

-- Neither in a section of a mutex nor in a wait.
abbrev Outside : System → ThreadId → Type 0
Outside y t = (holds y t ≡ none) × ((v : CondName) → waits v y t ≡ 0)

none_waits :
    {n w : ℕ} {y : System}
    → Reach n w y
    → (v : CondName) → (y.server.cond v).waiting ≡ 0
    → (t : ThreadId) → waits v y t ≡ 0
none_waits r v zero_waits main_thread = omega (arith, Reach-waiting r v)
none_waits {y = y} r v zero_waits (controller_thread i) = elim (dec_lt i y.accepted) [
  | yes lt ↦ omega (
    arith,
    Reach-waiting r v,
    total-member (λ (c : Controller). controller_waits v c.pc) y.accepted y.controllers i lt,
  )
  | no ge ↦ ground (arith, (Reach-Births r).unborn_controllers i (omega arith))
]
none_waits {n} {w} {y} r v zero_waits (worker_thread i) = elim (dec_lt i w) [
  | yes lt ↦ omega (arith, Reach-waiting r v, total-member (worker_waits v) w y.workers i lt)
  | no ge ↦
      ground (arith, (Reach-Keeps (Keeps-Pool w) (initial-Pool n w) r).outside i (omega arith))
]

holds-none :
    {n w : ℕ} {y : System}
    → Reach n w y
    → ((m : MutexName) → y.server.owner m ≡ none)
    → (t : ThreadId) → holds y t ≡ none
holds-none {y = y} r free t = elim (Option-cases (holds y t)) [
  | inl e ↦ e
  | inr (m, e) ↦ let owned = (Reach-Owns r t m).1 e in let taken = free m in cc
]

owner_none :
    {n w : ℕ} {y : System}
    → Reach n w y
    → ((t : ThreadId) → Outside y t)
    → (m : MutexName) → y.server.owner m ≡ none
owner_none {y = y} r outside m = elim (Option-cases (y.server.owner m)) [
  | inl e ↦ e
  | inr (t, e) ↦ let held = (Reach-Owns r t m).0 e in let out = (outside t).0 in cc
]

-- `destroy` in any reachable state is either undefined or leaves the server as it is, and it is
-- defined exactly if no thread stands between its lock and its unlock of a mutex nor waits on a
-- condition variable.
pub destroy_defined_iff :
    {n w : ℕ} {y : System}
    → Reach n w y
    → ((destroy y.server ≡ ok y.server) ⊎ (destroy y.server ≡ fault destroys_used))
      × ((destroy y.server ≡ ok y.server)
          ↔ ((t : ThreadId) → (holds y t ≡ none) × ((v : CondName) → waits v y t ≡ 0)))
destroy_defined_iff {w = w} {y} r = (
  destroy-ok_or_fault y.server,
  (
    λ h t. (
      holds-none r (destroy-free y.server h) t,
      λ v. none_waits r v (destroy-nobody y.server h v) t,
    ),
    λ outside. destroy_unused y.server (owner_none r outside) (λ v.
        Reach-waiting r v
        ∙ omega (
          arith,
          (outside main_thread).1 v,
          total-zero (λ (c : Controller). controller_waits v c.pc) y.accepted y.controllers
              (λ i. (outside (controller_thread i)).1 v),
          total-zero (worker_waits v) w y.workers (λ i. (outside (worker_thread i)).1 v),
        )),
  ),
)
