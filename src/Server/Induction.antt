-- ===== src/Server/Induction.antt =====
-- The proof rule for what holds under every interleaving: it holds at the start, and each step of
-- the main thread, of a controller and of a worker keeps it.
use multithreaded_network_jo.Prelude.{ℕ, ◌≡◌, ok, >>=-eq-ok, subst, sym, arith, ◌≢◌, ℕ_discrete}
use multithreaded_network_jo.Server.State.{
  ThreadId, main_thread, controller_thread, worker_thread, Server,
}
use multithreaded_network_jo.Server.Choice.{Choice}
use multithreaded_network_jo.Server.Controller.{Controller, controller_step, step_at}
use multithreaded_network_jo.Server.Worker
use multithreaded_network_jo.Server.Worker.{worker_step}
use multithreaded_network_jo.Server.System.{
  System, main_step_at, main_step, update, thread_step, Reach, start, next, initial,
}

abbrev pub after_controller : System → ℕ → Server × Controller → System
after_controller y i r = record y { server = r.0; controllers = update y.controllers i r.1 }

abbrev pub after_worker : System → ℕ → Server × Worker.Pc → System
after_worker y i r = record y { server = r.0; workers = update y.workers i r.1 }

pub update_same {ℓ} : {A : Type ℓ} (f : ℕ → A) (i : ℕ) (a : A) → update f i a i ≡ a
update_same f i a = ground arith

pub update_other {ℓ} : {A : Type ℓ} (f : ℕ → A) (i j : ℕ) (a : A) → j ≢ i → update f i a j ≡ f j
update_other f i j a ne = ground arith

pub ThreadId-discrete : Discrete ThreadId
ThreadId-discrete = hlevel ℕ_discrete

pub record Keeps {κ} (P : System → Type κ) : Type κ where
  pub main : (ch : Choice) (y z : System) → main_step_at y.main ch y ≡ ok z → P y → P z
  pub controller :
      (i : ℕ) (ch : Choice) (y : System) (r : Server × Controller)
      → step_at (y.controllers i).pc ch (controller_thread i) y.server (y.controllers i) ≡ ok r
      → P y
      → P (after_controller y i r)
  pub worker :
      (i : ℕ) (ch : Choice) (y : System) (r : Server × Worker.Pc)
      → worker_step (y.workers i) ch (worker_thread i) y.server ≡ ok r
      → P y
      → P (after_worker y i r)

module _ {κ} {P : System → Type κ} (k : Keeps P) where
  pub thread_step-Keeps :
      (t : ThreadId) (ch : Choice) (y : System) {z : System} → thread_step t ch y ≡ ok z → P y → P z
  unfolding thread_step main_step controller_step
  thread_step-Keeps main_thread ch y {z} h p = k.main ch y z h p
  thread_step-Keeps (controller_thread i) ch y h p =
      let (r, e, f) =
        >>=-eq-ok (controller_step ch (controller_thread i) y.server (y.controllers i)) _ h in
      subst P (cc) (k.controller i ch y r e p)
  thread_step-Keeps (worker_thread i) ch y h p =
      let (r, e, f) = >>=-eq-ok (worker_step (y.workers i) ch (worker_thread i) y.server) _ h in
      subst P (cc) (k.worker i ch y r e p)

  pub Reach-Keeps : {n w : ℕ} {y : System} → P (initial n w) → Reach n w y → P y
  Reach-Keeps p (start e) = subst P (sym e) p
  Reach-Keeps p (next {x} t ch r st) = thread_step-Keeps t ch x st (Reach-Keeps p r)

-- The same rule for runs in which every answer of the environment is of a certain kind.
pub record KeepsIf {ι κ} (A : Choice → Type ι) (P : System → Type κ) : Type (ι ⊔ κ) where
  pub main : (ch : Choice) (y z : System) → A ch → main_step_at y.main ch y ≡ ok z → P y → P z
  pub controller :
      (i : ℕ) (ch : Choice) (y : System) (r : Server × Controller)
      → A ch
      → step_at (y.controllers i).pc ch (controller_thread i) y.server (y.controllers i) ≡ ok r
      → P y
      → P (after_controller y i r)
  pub worker :
      (i : ℕ) (ch : Choice) (y : System) (r : Server × Worker.Pc)
      → A ch
      → worker_step (y.workers i) ch (worker_thread i) y.server ≡ ok r
      → P y
      → P (after_worker y i r)

-- Every answer on the way to a reachable state is of the kind `A`.
abbrev pub Along {ι} : (A : Choice → Type ι) {n w : ℕ} {y : System} → Reach n w y → Type ι
Along A (start e) = Unit
Along A (next t ch r st) = A ch × Along A r

module _ {ι κ} {A : Choice → Type ι} {P : System → Type κ} (k : KeepsIf A P) where
  thread_step-KeepsIf :
      (t : ThreadId) (ch : Choice) (y : System) {z : System}
      → A ch
      → thread_step t ch y ≡ ok z
      → P y
      → P z
  unfolding thread_step main_step controller_step
  thread_step-KeepsIf main_thread ch y {z} a h p = k.main ch y z a h p
  thread_step-KeepsIf (controller_thread i) ch y a h p =
      let (r, e, f) =
        >>=-eq-ok (controller_step ch (controller_thread i) y.server (y.controllers i)) _ h in
      subst P (cc) (k.controller i ch y r a e p)
  thread_step-KeepsIf (worker_thread i) ch y a h p =
      let (r, e, f) = >>=-eq-ok (worker_step (y.workers i) ch (worker_thread i) y.server) _ h in
      subst P (cc) (k.worker i ch y r a e p)

  pub Reach-KeepsIf : {n w : ℕ} {y : System} → P (initial n w) → (r : Reach n w y) → Along A r → P y
  Reach-KeepsIf p (start e) al = subst P (sym e) p
  Reach-KeepsIf p (next {x} t ch r st) al =
      thread_step-KeepsIf t ch x al.0 st (Reach-KeepsIf p r al.1)
