-- ===== src/Server/Handshake/Blocked.antt =====
-- An invalid command and the main thread of src/Server: `executeTask` does nothing for it, so nothing
-- sets `continueExecution`.
use multithreaded_network_jo.Prelude.{ℕ, suc, ◌≡◌, ◌≢◌, refl, arith, ok, true, false, ◌∙◌}
use multithreaded_network_jo.Commands.{invalid}
use multithreaded_network_jo.Server.State.{
  ThreadId, controller_thread, Server, lock, unlock, cond_wait, wake, broadcast,
}
use multithreaded_network_jo.Server.Choice.{Choice}
use multithreaded_network_jo.Server.Controller
use multithreaded_network_jo.Server.Controller.{Controller, step_at}
use multithreaded_network_jo.Server.Induction.{Keeps, thread_step-Keeps}
use multithreaded_network_jo.Server.System.{
  System, MainPc, listen, main_step_at, Reach, thread_step,
}
use multithreaded_network_jo.Server.Handshake.{released, awaits}
use multithreaded_network_jo.Server.Handshake.Invariant.{
  Handshake, Keeps-Handshake, Reach-Handshake,
}

-- The main thread waits for the controller `i`, which has ended for an invalid command.
pub record WaitsForInvalid (i : ℕ) (y : System) : Type 0 where
  pub last : suc i ≡ y.accepted
  pub waits : awaits y.main ≡ true
  pub ended : (y.controllers i).pc ≡ Controller.finished
  pub mode : (y.controllers i).client_command_mode ≡ invalid

record Stuck (i : ℕ) (y : System) : Type 0 where
  shake : Handshake y
  stuck : WaitsForInvalid i y

never_released :
    (c : Controller)
    → c.pc ≡ Controller.finished
    → c.client_command_mode ≡ invalid
    → released c ≡ false
unfolding released
never_released c e m = rw (e, m)

main-Stuck :
    (i : ℕ) (pc : MainPc) (ch : Choice) (y : System) {z : System}
    → main_step_at pc ch y ≡ ok z
    → y.main ≡ pc
    → y.server.continue_execution ≡ false
    → WaitsForInvalid i y
    → WaitsForInvalid i z
unfolding main_step_at lock unlock cond_wait wake broadcast
main-Stuck i listen ch y h e f k = ground arith
main-Stuck i _ ch y h e f k = ground arith

finished_ends :
    (ch : Choice) (t : ThreadId) (s : Server) (c : Controller) {pc : Controller.Pc}
    {r : Server × Controller}
    → step_at pc ch t s c ≡ ok r
    → pc ≢ Controller.finished
unfolding step_at
finished_ends ch t s c h e = ground arith

Keeps-Stuck : (i : ℕ) → Keeps (Stuck i)
Keeps-Stuck i = record {
  main = λ ch y z h k. record {
    shake = Keeps-Handshake.main ch y z h k.shake;
    stuck =
        main-Stuck i y.main ch y h refl
          (k.shake.flag i k.stuck.last k.stuck.waits
            ∙ never_released (y.controllers i) k.stuck.ended k.stuck.mode)
          k.stuck;
  };
  controller = λ j ch y r h k. record {
    shake = Keeps-Handshake.controller j ch y r h k.shake;
    stuck =
        ground
          (arith, k.stuck, finished_ends ch (controller_thread j) y.server (y.controllers j) h);
  };
  worker = λ j ch y r h k. record {
    shake = Keeps-Handshake.worker j ch y r h k.shake;
    stuck = record {
      last = k.stuck.last;
      waits = k.stuck.waits;
      ended = k.stuck.ended;
      mode = k.stuck.mode;
    };
  };
}

-- The moves of the threads from one state to another.
pub data Moves (x : System) : System → Type 0 where
  rest : {y : System} → y ≡ x → Moves x y
  move :
      {y z : System} (t : ThreadId) (ch : Choice)
      → Moves x y
      → thread_step t ch y ≡ ok z
      → Moves x z

Moves-Stuck : (i : ℕ) {x y : System} → Stuck i x → Moves x y → Stuck i y
Moves-Stuck i k (rest e) = rw e k
Moves-Stuck i k (move {y} t ch m st) =
    thread_step-Keeps (Keeps-Stuck i) t ch y st (Moves-Stuck i k m)

-- One invalid command stops the server for good: from a reachable state in which the main thread
-- waits for a controller that has ended for an invalid command, no sequence of moves of any threads
-- gets the main thread out of its wait, so no client is accepted any more.
pub invalid_command_blocks :
    {n w : ℕ} (i : ℕ) {x y : System}
    → Reach n w x
    → WaitsForInvalid i x
    → Moves x y
    → (awaits y.main ≡ true) × (y.accepted ≡ x.accepted)
invalid_command_blocks i r k m =
    let s = Moves-Stuck i (record { shake = Reach-Handshake r; stuck = k }) m in
    (s.stuck.waits, ground (arith, s.stuck.last, k.last))
