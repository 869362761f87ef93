-- ===== src/Server/Locks/Threads.antt =====
-- Each step of a thread of src/Server keeps the books of the mutexes: those of its own, and those of
-- the others.
use multithreaded_network_jo.Prelude.{
  ◌≡◌, ◌∙◌, refl, ap, arith, Option, none, some, true, Bool-cases, inl, inr, if◌then◌else◌, ok,
  fault, foreign_unlock, >>=-eq-ok,
}
use multithreaded_network_jo.Server.State.{
  ThreadId, main_thread, controller_thread, worker_thread, same_thread, MutexName, mutex_worker,
  unlock_own, Server, lock, unlock, cond_wait, wake, signal, broadcast, send_message,
}
use multithreaded_network_jo.Server.Choice.{Choice}
use multithreaded_network_jo.Server.Controller
use multithreaded_network_jo.Server.Controller.{Controller, step_at}
use multithreaded_network_jo.Server.Worker
use multithreaded_network_jo.Server.Worker.{worker_step}
use multithreaded_network_jo.Server.System.{System, MainPc, listen, main_step_at}
use multithreaded_network_jo.Server.Locks.{controller_holds, worker_holds, main_holds, Owns, Frame}

pub same_thread→eq : (t u : ThreadId) → same_thread t u ≡ true → t ≡ u
same_thread→eq main_thread main_thread h = refl
same_thread→eq (controller_thread i) (controller_thread j) h = ground arith
same_thread→eq (worker_thread i) (worker_thread j) h = ground arith
same_thread→eq _ _ h = cc

-- A thread gives up a mutex that it owns, and with any other the outcome is undefined.
pub unlock_own-ok :
    (m : MutexName) (t : ThreadId) (s : Server) {s' : Server}
    → unlock_own m t s ≡ ok s'
    → (s.owner m ≡ some t) × (s' ≡ unlock m s)
unfolding unlock_own
unlock_own-ok m t s h = owner_cases (s.owner m) refl h
  where
    owner_cases :
        {s' : Server} (o : Option ThreadId)
        → s.owner m ≡ o
        → (elim o [
          | none ↦ fault foreign_unlock
          | some u ↦ if same_thread u t then ok (unlock m s) else fault foreign_unlock
        ])
          ≡ ok s'
        → (s.owner m ≡ some t) × (s' ≡ unlock m s)
    owner_cases none e h = cc
    owner_cases (some u) e h = elim (Bool-cases (same_thread u t)) [
      | inl same ↦ (e ∙ ap some (same_thread→eq u t same), ground arith)
      | inr other ↦ absurd (ground arith)
    ]

pub controller-Owns :
    (pc : Controller.Pc) (ch : Choice) (t : ThreadId) (s : Server) (c : Controller)
    {r : Server × Controller}
    → step_at pc ch t s c ≡ ok r
    → (m : MutexName) → Owns s t (controller_holds pc) m
    → Owns r.0 t (controller_holds r.1.pc) m
unfolding step_at lock unlock cond_wait wake signal broadcast send_message
controller-Owns Controller.unborn ch t s c h m o = ground arith
controller-Owns _ ch t s c h m o = ground arith

pub controller-Frame :
    (pc : Controller.Pc) (ch : Choice) (t : ThreadId) (s : Server) (c : Controller)
    {r : Server × Controller}
    → step_at pc ch t s c ≡ ok r
    → (m : MutexName) → Owns s t (controller_holds pc) m
    → Frame t s r.0 m
unfolding step_at lock unlock cond_wait wake signal broadcast send_message
controller-Frame Controller.unborn ch t s c h m o u other = ground arith
controller-Frame _ ch t s c h m o u other = ground arith

pub worker-Owns :
    (pc : Worker.Pc) (ch : Choice) (t : ThreadId) (s : Server) {r : Server × Worker.Pc}
    → worker_step pc ch t s ≡ ok r
    → (m : MutexName) → Owns s t (worker_holds pc) m
    → Owns r.0 t (worker_holds r.1) m
unfolding worker_step lock unlock cond_wait wake signal send_message
worker-Owns Worker.unborn ch t s h m o = ground arith
worker-Owns Worker.second_unlock ch t s h m o =
    let (s', e, last) = >>=-eq-ok (unlock_own mutex_worker t s) _ h in
    let (mine, same) = unlock_own-ok mutex_worker t s e in ground (arith, mine, same)
worker-Owns _ ch t s h m o = ground arith

pub worker-Frame :
    (pc : Worker.Pc) (ch : Choice) (t : ThreadId) (s : Server) {r : Server × Worker.Pc}
    → worker_step pc ch t s ≡ ok r
    → (m : MutexName) → Owns s t (worker_holds pc) m
    → Frame t s r.0 m
unfolding worker_step lock unlock cond_wait wake signal send_message
worker-Frame Worker.unborn ch t s h m o u other = ground arith
worker-Frame Worker.second_unlock ch t s h m o u other =
    let (s', e, last) = >>=-eq-ok (unlock_own mutex_worker t s) _ h in
    let (mine, same) = unlock_own-ok mutex_worker t s e in ground (arith, mine, same)
worker-Frame _ ch t s h m o u other = ground arith

pub main-Owns :
    (pc : MainPc) (ch : Choice) (y : System) {z : System}
    → main_step_at pc ch y ≡ ok z
    → (m : MutexName) → Owns y.server main_thread (main_holds pc) m
    → Owns z.server main_thread (main_holds z.main) m
unfolding main_step_at lock unlock cond_wait wake broadcast
main-Owns listen ch y h m o = ground arith
main-Owns _ ch y h m o = ground arith

pub main-Frame :
    (pc : MainPc) (ch : Choice) (y : System) {z : System}
    → main_step_at pc ch y ≡ ok z
    → (m : MutexName) → Owns y.server main_thread (main_holds pc) m
    → Frame main_thread y.server z.server m
unfolding main_step_at lock unlock cond_wait wake broadcast
main-Frame listen ch y h m o u other = ground arith
main-Frame _ ch y h m o u other = ground arith
