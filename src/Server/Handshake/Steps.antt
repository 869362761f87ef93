-- ===== src/Server/Handshake/Steps.antt =====
-- What one step of a controller does to the handshake.
use multithreaded_network_jo.Prelude.{◌≡◌, ◌≢◌, arith, refl, ok, true, false}
use multithreaded_network_jo.Server.State.{
  ThreadId, Server, lock, unlock, unlock_own, cond_wait, wake, signal, broadcast, send_message,
}
use multithreaded_network_jo.Server.Choice.{Choice}
use multithreaded_network_jo.Server.Controller
use multithreaded_network_jo.Server.Worker
use multithreaded_network_jo.Server.Worker.{worker_step}
use multithreaded_network_jo.Server.Controller.{Controller, step_at}
use multithreaded_network_jo.Server.Handshake.{
  released_at, released, is_valid_mode, in_handler, Sane,
}

pub step-flag :
    (pc : Controller.Pc) (ch : Choice) (t : ThreadId) (s : Server) (c : Controller)
    {r : Server × Controller}
    → step_at pc ch t s c ≡ ok r
    → c.pc ≡ pc
    → (in_handler pc ≡ true → is_valid_mode c.client_command_mode ≡ true)
    → record {
      keeps : released_at pc c.client_command_mode ≡ true → released r.1 ≡ true;
      quiet :
          released_at pc c.client_command_mode ≡ true
          → r.0.continue_execution ≡ s.continue_execution;
      waits : released r.1 ≡ false → r.0.continue_execution ≡ s.continue_execution;
      sets :
          released_at pc c.client_command_mode ≡ false
          → released r.1 ≡ true
          → r.0.continue_execution ≡ true;
      sane : Sane r.1;
    }
unfolding released Sane step_at lock unlock cond_wait wake signal broadcast send_message
step-flag Controller.unborn ch t s c h e v = ground arith
step-flag _ ch t s c h e v = ground arith

pub controller-flag :
    (ch : Choice) (t : ThreadId) (s : Server) (c : Controller) {r : Server × Controller}
    → step_at c.pc ch t s c ≡ ok r
    → Sane c
    → record {
      keeps : released c ≡ true → released r.1 ≡ true;
      quiet : released c ≡ true → r.0.continue_execution ≡ s.continue_execution;
      waits : released r.1 ≡ false → r.0.continue_execution ≡ s.continue_execution;
      sets : released c ≡ false → released r.1 ≡ true → r.0.continue_execution ≡ true;
      sane : Sane r.1;
    }
unfolding released Sane
controller-flag ch t s c h v = step-flag c.pc ch t s c h refl v

pub worker-flag :
    (pc : Worker.Pc) (ch : Choice) (t : ThreadId) (s : Server) {r : Server × Worker.Pc}
    → worker_step pc ch t s ≡ ok r
    → (r.0.continue_execution ≡ s.continue_execution) × (r.0.client_socket ≡ s.client_socket)
unfolding worker_step unlock_own lock unlock cond_wait wake signal send_message
worker-flag Worker.unborn ch t s h = ground arith
worker-flag _ ch t s h = ground arith

pub controller-socket :
    (pc : Controller.Pc) (ch : Choice) (t : ThreadId) (s : Server) (c : Controller)
    {r : Server × Controller}
    → step_at pc ch t s c ≡ ok r
    → record {
      shared : r.0.client_socket ≡ s.client_socket;
      started : pc ≡ Controller.start → r.1.client_socket ≡ s.client_socket;
      kept : pc ≢ Controller.start → r.1.client_socket ≡ c.client_socket;
      left : r.1.pc ≢ Controller.start;
    }
unfolding step_at lock unlock cond_wait wake signal broadcast send_message
controller-socket Controller.unborn ch t s c h = ground arith
controller-socket _ ch t s c h = ground arith
