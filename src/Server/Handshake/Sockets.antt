-- ===== src/Server/Handshake/Sockets.antt =====
-- Which client a controller of src/Server serves: `run` passes the address of one variable to every
-- controller, and overwrites that variable with the next client's socket.
use multithreaded_network_jo.Prelude.{
  ℕ, suc, ◌<◌, ◌≡◌, ◌≢◌, refl, arith, ok, true, false, ◌==◌, Bool-cases, inl, inr,
}
use multithreaded_network_jo.Server.State.{
  controller_thread, worker_thread, Server, lock, unlock, cond_wait, wake, broadcast,
}
use multithreaded_network_jo.Server.Choice.{Choice, accepts, creates}
use multithreaded_network_jo.Server.Controller
use multithreaded_network_jo.Server.Controller.{Controller, step_at}
use multithreaded_network_jo.Server.Induction.{Keeps, Reach-Keeps, after_controller}
use multithreaded_network_jo.Server.System.{
  System, MainPc, listen, accept, create_controller, main_step_at, Reach, initial,
  unborn_controller,
}
use multithreaded_network_jo.Server.Handshake.{released, awaits}
use multithreaded_network_jo.Server.Handshake.Steps.{controller-socket, worker-flag}
use multithreaded_network_jo.Server.Handshake.Invariant.{
  Handshake, Keeps-Handshake, initial-Handshake, created,
}

pub record Handed (y : System) : Type 0 where
  pub shake : Handshake y
  pub begun :
      (i : ℕ)
      → i < y.accepted
      → (y.controllers i).pc ≢ Controller.start
      → (y.controllers i).client_socket ≡ y.accepted_socket i
  pub to_begin :
      (i : ℕ)
      → i < y.accepted
      → (y.controllers i).pc ≡ Controller.start
      → y.server.client_socket ≡ y.accepted_socket i

released-begun : (c : Controller) → released c ≡ true → c.pc ≢ Controller.start
unfolding released
released-begun c h e = ground arith

controller-Handed :
    (i : ℕ) (ch : Choice) (y : System) (r : Server × Controller)
    → step_at (y.controllers i).pc ch (controller_thread i) y.server (y.controllers i) ≡ ok r
    → Handed y
    → Handed (after_controller y i r)
controller-Handed i ch y r h k =
    let f =
      controller-socket (y.controllers i).pc ch (controller_thread i) y.server (y.controllers i)
        h in
    let lt = created i ch y r h k.shake in
    record {
      shake = Keeps-Handshake.controller i ch y r h k.shake;
      begun = λ j l n. ground (arith, f, lt, k.begun i, k.to_begin i, k.begun j);
      to_begin = λ j l e. ground (arith, f, lt, k.to_begin j);
    }

-- While the main thread may accept, no controller still has to read the variable.
none_to_begin :
    (y : System)
    → Handshake y
    → awaits y.main ≡ false
    → (i : ℕ) → i < y.accepted
    → (y.controllers i).pc ≢ Controller.start
none_to_begin y k q i lt =
    released-begun (y.controllers i) (elim (Bool-cases (suc i == y.accepted)) [
      | inl e ↦ k.newest i (ground arith) q
      | inr e ↦ k.older i (ground arith)
    ])

-- What `Handed` says of one controller, for the value of the variable and the socket that is meant.
Serves : ℕ → ℕ → Controller → Type 0
Serves variable socket c =
    (c.pc ≢ Controller.start → c.client_socket ≡ socket)
    × (c.pc ≡ Controller.start → variable ≡ socket)

Serves-start : (v : ℕ) → Serves v v (record unborn_controller { pc = Controller.start })
unfolding Serves
Serves-start v = (λ ne. absurd (ne refl), λ e. refl)

-- Past its start a controller does not read the variable any more.
Serves-begun :
    (v v' socket : ℕ) (c : Controller)
    → c.pc ≢ Controller.start
    → Serves v socket c
    → Serves v' socket c
unfolding Serves
Serves-begun v v' socket c ne k = (k.0, λ e. absurd (ne e))

Handed-Serves :
    (y : System)
    → Handed y
    → (i : ℕ) → i < y.accepted
    → Serves y.server.client_socket (y.accepted_socket i) (y.controllers i)
unfolding Serves
Handed-Serves y k i lt = (k.begun i lt, k.to_begin i lt)

main-Serves :
    (pc : MainPc) (ch : Choice) (y : System) {z : System}
    → main_step_at pc ch y ≡ ok z
    → y.main ≡ pc
    → Handed y
    → (i : ℕ) → i < z.accepted
    → Serves z.server.client_socket (z.accepted_socket i) (z.controllers i)
unfolding main_step_at lock unlock cond_wait wake broadcast
main-Serves listen ch y h e k i lt = ground (arith, Handed-Serves y k i)
main-Serves accept (accepts socket) y h e k i lt =
    let begun = none_to_begin y k.shake (rw e) i (ground arith) in
    ground (
      arith,
      Serves-begun y.server.client_socket socket (y.accepted_socket i) (y.controllers i) begun
          (Handed-Serves y k i (ground arith)),
    )
main-Serves create_controller creates y h e k i lt =
    ground (arith, Serves-start y.server.client_socket, Handed-Serves y k i)
main-Serves _ ch y h e k i lt = ground (arith, Handed-Serves y k i)

main-sockets :
    (ch : Choice) (y z : System)
    → main_step_at y.main ch y ≡ ok z
    → Handed y
    → (i : ℕ) → i < z.accepted
    → ((z.controllers i).pc ≢ Controller.start
        → (z.controllers i).client_socket ≡ z.accepted_socket i)
      × ((z.controllers i).pc ≡ Controller.start → z.server.client_socket ≡ z.accepted_socket i)
unfolding Serves
main-sockets ch y z h k i lt = main-Serves y.main ch y h refl k i lt

pub Keeps-Handed : Keeps Handed
Keeps-Handed = record {
  main = λ ch y z h k. record {
    shake = Keeps-Handshake.main ch y z h k.shake;
    begun = λ i lt. (main-sockets ch y z h k i lt).0;
    to_begin = λ i lt. (main-sockets ch y z h k i lt).1;
  };
  controller = controller-Handed;
  worker = λ i ch y r h k. record {
    shake = Keeps-Handshake.worker i ch y r h k.shake;
    begun = k.begun;
    to_begin = λ j lt e.
        ground
          (arith, worker-flag (y.workers i) ch (worker_thread i) y.server h, k.to_begin j lt e);
  };
}

pub initial-Handed : (n w : ℕ) → Handed (initial n w)
unfolding initial
initial-Handed n w = record {
  shake = initial-Handshake n w;
  begun = λ i lt. absurd (omega arith);
  to_begin = λ i lt. absurd (omega arith);
}

-- Although all controllers are given the address of the same variable, each one that has begun serves
-- the socket that `accept` returned for it, in every reachable state.
pub Reach-client_socket :
    {n w : ℕ} {y : System}
    → Reach n w y
    → (i : ℕ) → i < y.accepted
    → (y.controllers i).pc ≢ Controller.start
    → (y.controllers i).client_socket ≡ y.accepted_socket i
Reach-client_socket {n} {w} r = (Reach-Keeps Keeps-Handed (initial-Handed n w) r).begun
