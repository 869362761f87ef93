-- ===== src/Server/Answers/Stray.antt =====
-- To which sockets the threads of src/Server send, under all interleavings.
use multithreaded_network_jo.Prelude.{
  ℕ, ◌<◌, ◌≡◌, ◌≢◌, refl, sym, ap, ◌∙◌, arith, ok, inl, inr, ◌⊎◌,
}
use multithreaded_network_jo.Server.State.{
  ThreadId, controller_thread, worker_thread, Server, lock, unlock, cond_wait, wake, broadcast,
}
use multithreaded_network_jo.Server.Choice.{Choice}
use multithreaded_network_jo.Server.Controller
use multithreaded_network_jo.Server.Controller.{Controller, step_at}
use multithreaded_network_jo.Server.System.{System, MainPc, listen, main_step_at, Reach, initial}
use multithreaded_network_jo.Server.Births.{main-controllers_change, main-workers_change}
use multithreaded_network_jo.Server.Induction.{Keeps, Reach-Keeps}
use multithreaded_network_jo.Server.Handshake.Invariant.{created}
use multithreaded_network_jo.Server.Handshake.Sockets.{Handed, Keeps-Handed, initial-Handed}
use multithreaded_network_jo.Server.Answers.{sent_to, controller_aims, worker_aims, Unknown}
use multithreaded_network_jo.Server.Answers.Silence.{Silent, controller-Silent, worker-Silent}

-- A step of `run` sends nothing, leaves the buffer alone, and forgets no client.
main-Silent :
    (socket : ℕ) (pc : MainPc) (ch : Choice) (y : System) {z : System}
    → main_step_at pc ch y ≡ ok z
    → (Silent socket y.server → Silent socket z.server)
      × ((i : ℕ) → i < y.accepted → (i < z.accepted) × (z.accepted_socket i ≡ y.accepted_socket i))
unfolding main_step_at lock unlock cond_wait wake broadcast
main-Silent socket listen ch y h = (λ q. ground arith, λ i lt. ground arith)
main-Silent socket _ ch y h = (λ q. ground arith, λ i lt. ground arith)

-- A new controller has no job yet, and reads its socket first.
start_or_not : (pc : Controller.Pc) → (pc ≡ Controller.start) ⊎ (pc ≢ Controller.start)
start_or_not Controller.start = inl refl
start_or_not _ = inr (λ e. cc)

start-Silent :
    (socket : ℕ) (pc : Controller.Pc) (ch : Choice) (t : ThreadId) (s : Server) (c : Controller)
    {r : Server × Controller}
    → step_at pc ch t s c ≡ ok r
    → pc ≡ Controller.start
    → Silent socket s
    → Silent socket r.0 × (controller_aims socket r.1.pc ≡ 0)
unfolding step_at
start-Silent socket pc ch t s c h e q = ground arith

record Quiet (socket : ℕ) (y : System) : Type 0 where
  handed : Handed y
  silent : Unknown socket y → Silent socket y.server
  controllers_aim : Unknown socket y → (i : ℕ) → controller_aims socket (y.controllers i).pc ≡ 0
  workers_aim : Unknown socket y → (i : ℕ) → worker_aims socket (y.workers i) ≡ 0

-- A controller that moves, with what the invariant says of it.
moved-Silent :
    (socket i : ℕ) (ch : Choice) (y : System) {r : Server × Controller}
    → step_at (y.controllers i).pc ch (controller_thread i) y.server (y.controllers i) ≡ ok r
    → Quiet socket y
    → Unknown socket y
    → i < y.accepted
    → Silent socket r.0 × (controller_aims socket r.1.pc ≡ 0)
moved-Silent socket i ch y h k unknown lt =
    let c = y.controllers i in
    elim (start_or_not c.pc) [
      | inl begins ↦
          start-Silent socket c.pc ch (controller_thread i) y.server c h begins (k.silent unknown)
      | inr begun ↦
          controller-Silent socket c.pc ch (controller_thread i) y.server c h
            (λ e. unknown i lt (sym (k.handed.begun i lt begun) ∙ e)) (k.silent unknown)
            (k.controllers_aim unknown i)
    ]

main-Unknown :
    (socket : ℕ) (ch : Choice) (y z : System)
    → main_step_at y.main ch y ≡ ok z
    → Unknown socket z
    → Unknown socket y
main-Unknown socket ch y z h unknown i lt e =
    let (there, same) = (main-Silent socket y.main ch y h).1 i lt in unknown i there (same ∙ e)

Keeps-Quiet : (socket : ℕ) → Keeps (Quiet socket)
Keeps-Quiet socket = record {
  main = λ ch y z h k.
      let births = k.handed.shake.births in
      record {
        handed = Keeps-Handed.main ch y z h k.handed;
        silent = λ unknown.
            (main-Silent socket y.main ch y h).0 (k.silent (main-Unknown socket ch y z h unknown));
        controllers_aim = λ unknown i. elim (main-controllers_change y.main ch y h births i) [
          | inl same ↦
              ap (λ c. controller_aims socket c.pc) same
              ∙ k.controllers_aim (main-Unknown socket ch y z h unknown) i
          | inr (old, new) ↦ ap (λ c. controller_aims socket c.pc) new
        ];
        workers_aim = λ unknown i.
            elim (main-workers_change y.main ch y h births.unborn_workers i) [
              | inl same ↦
                  ap (worker_aims socket) same
                  ∙ k.workers_aim (main-Unknown socket ch y z h unknown) i
              | inr (old, new) ↦ ap (worker_aims socket) new
            ];
      };
  controller = λ i ch y r h k.
      let lt = created i ch y r h k.handed.shake in
      record {
        handed = Keeps-Handed.controller i ch y r h k.handed;
        silent = λ unknown. (moved-Silent socket i ch y h k unknown lt).0;
        controllers_aim = λ unknown j.
            ground
              (arith, (moved-Silent socket i ch y h k unknown lt).1, k.controllers_aim unknown j);
        workers_aim = k.workers_aim;
      };
  worker = λ i ch y r h k. record {
    handed = Keeps-Handed.worker i ch y r h k.handed;
    silent = λ unknown.
        (worker-Silent socket (y.workers i) ch (worker_thread i) y.server h (k.silent unknown)
          (k.workers_aim unknown i)).0;
    controllers_aim = k.controllers_aim;
    workers_aim = λ unknown j. ground (
      arith,
      (worker-Silent socket (y.workers i) ch (worker_thread i) y.server h (k.silent unknown)
          (k.workers_aim unknown i)).1,
      k.workers_aim unknown j,
    );
  };
}

-- Nothing is ever sent to a descriptor that is not the socket of a client: as long as no controller
-- has been created for a socket, no thread has sent anything there, in any reachable state.
pub Reach-no_stray_packets :
    {n w : ℕ} {y : System}
    → Reach n w y
    → (socket : ℕ) → ((i : ℕ) → i < y.accepted → y.accepted_socket i ≢ socket)
    → sent_to socket y.server.sent ≡ 0
unfolding initial sent_to
Reach-no_stray_packets {n} {w} r socket unknown =
    let k =
      Reach-Keeps (Keeps-Quiet socket)
        (record {
          handed = initial-Handed n w;
          silent = λ u. (refl, refl);
          controllers_aim = λ u i. refl;
          workers_aim = λ u i. refl;
        })
        r in
    (k.silent unknown).0
