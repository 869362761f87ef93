-- ===== src/Server/Orderly/Apart.antt =====
-- The waiting buffer of src/Tools/waitingBufferQueue.cpp under the threads of src/Server.
use multithreaded_network_jo.Prelude.{
  ℕ, ◌<◌, ◌^◌, ◌≡◌, ◌≢◌, ◌⊎◌, inl, inr, refl, sym, arith, some, true, Bool-cases,
}
use multithreaded_network_jo.Tools.WaitingBufferQueue.Valid.{IsValid}
use multithreaded_network_jo.Server.State.{
  ThreadId, main_thread, controller_thread, worker_thread, mutex_job_insertion,
}
use multithreaded_network_jo.Server.Controller
use multithreaded_network_jo.Server.Worker
use multithreaded_network_jo.Server.System.{System, Reach, start, next}
use multithreaded_network_jo.Server.Locks.{holds, controller_holds, worker_holds}
use multithreaded_network_jo.Server.Locks.Exclusion.{mutual_exclusion}
use multithreaded_network_jo.Server.QueueSafety.{Reach-IsValid}
use multithreaded_network_jo.Server.Orderly.{
  controller_unlocked, controller_calls, worker_calls, unlocked_call, in_buffer, Undisturbed,
  OneAtATime, Orderly,
}

controller_call_cases :
    (pc : Controller.Pc)
    → controller_calls pc ≡ true
    → (controller_unlocked pc ≡ true) ⊎ (controller_holds pc ≡ some mutex_job_insertion)
controller_call_cases (Controller.insert j) h = inr refl
controller_call_cases _ h = ground arith

worker_call_holds :
    (pc : Worker.Pc) → worker_calls pc ≡ true → worker_holds pc ≡ some mutex_job_insertion
worker_call_holds pc h = ground arith

call_cases :
    (y : System) (t : ThreadId)
    → in_buffer y t ≡ true
    → (unlocked_call y t ≡ true) ⊎ (holds y t ≡ some mutex_job_insertion)
call_cases y main_thread h = cc
call_cases y (controller_thread i) h = controller_call_cases (y.controllers i).pc h
call_cases y (worker_thread k) h = inr (worker_call_holds (y.workers k) h)

Orderly-Undisturbed : {n w : ℕ} {y : System} (r : Reach n w y) → Orderly r → Undisturbed y
Orderly-Undisturbed (start e) o = o
Orderly-Undisturbed (next t ch r st) o = o.0

-- The calls under a mutex exclude each other, and no other call is disturbed.
pub Orderly-OneAtATime : {n w : ℕ} {y : System} (r : Reach n w y) → Orderly r → OneAtATime y
Orderly-OneAtATime {y = y} r o = apart
  where
    alone : Undisturbed y
    alone = Orderly-Undisturbed r o

    both : (t u : ThreadId) → t ≢ u → in_buffer y t ≡ true → in_buffer y u ≡ true → ⊥
    both t u ne at_t at_u = elim (call_cases y t at_t) [
      | inl open_t ↦ ground (arith, alone t u ne open_t)
      | inr held_t ↦ elim (call_cases y u at_u) [
        | inl open_u ↦ ground (arith, alone u t (λ e. ne (sym e)) open_u)
        | inr held_u ↦ ne (mutual_exclusion r mutex_job_insertion t u held_t held_u)
      ]
    ]

    apart : OneAtATime y
    apart t u ne at_t = elim (Bool-cases (in_buffer y u)) [
      | inl at_u ↦ absurd (both t u ne at_t at_u)
      | inr away ↦ away
    ]

-- In a run in which no other thread is at a method of the waiting buffer while `stop`, `exit` or
-- `poll` is at one with no mutex, in whatever order the threads move: no two threads are ever at such
-- a method at once, and the buffer stays well-formed: its size is the number of its entries, it never
-- has more of them than its capacity, and the capacity is the buffer size that the server was started
-- with (a 32-bit number).
pub buffer_kept :
    {n w : ℕ} {y : System} (r : Reach n w y)
    → Orderly r
    → n < 2 ^ 32
    → IsValid n y.server.queue × OneAtATime y
buffer_kept {n} {w} r o small = (Reach-IsValid n w small r, Orderly-OneAtATime r o)
