-- ===== src/Server/Races.antt =====
-- Orders of the moves of src/Server in which one thread acts on what another has changed since it
-- looked: a run of one thread after a run of another.
pub mod Insertion
pub mod Removal
pub mod Listing
pub mod Wakeups
pub mod Concurrency
use mathlib.Core.Path.{fun_ext}
use multithreaded_network_jo.Prelude.{
  Fault, ℕ, ◌≡◌, ◌≢◌, refl, sym, arith, ap, ◌∙◌, List, [], ◌∷◌, ◌++◌, map, Outcome, ok, blocked,
  fault, ◌>>=◌, ◌==◌, Bool-cases, inl, inr, subst, sym,
}
use multithreaded_network_jo.Server.State.{ThreadId, controller_thread, worker_thread, Server}
use multithreaded_network_jo.Server.Choice.{Choice}
use multithreaded_network_jo.Server.Controller.{Controller, controller_step}
use multithreaded_network_jo.Server.Worker
use multithreaded_network_jo.Server.Worker.{worker_step}
use multithreaded_network_jo.Server.System.{System, thread_step, update, run}
use multithreaded_network_jo.Server.Induction.{update_same, after_controller, after_worker}
use multithreaded_network_jo.Server.Handlers.{Returns, Returns-ok, Returns->>=}

update_self {ℓ} : {A : Type ℓ} (f : ℕ → A) (i : ℕ) → update f i (f i) ≡ f
update_self f i = fun_ext (λ j. ground arith)

update_twice {ℓ} :
    {A : Type ℓ} (f : ℕ → A) (i : ℕ) (a b : A) → update (update f i a) i b ≡ update f i b
update_twice f i a b = fun_ext (λ j. ground arith)

>>=-cong :
    {A B : Type 0} (o : Outcome A) (f g : A → Outcome B)
    → ((a : A) → f a ≡ g a)
    → (o >>= f) ≡ (o >>= g)
>>=-cong (ok a) f g h = h a
>>=-cong blocked f g h = refl
>>=-cong (fault e) f g h = refl

-- Steps of one thread on the server and on its own state.
module _ {L : Type 0} (step : Choice → Server → L → Outcome (Server × L)) where
  unfoldable pub many : List Choice → Server → L → Outcome (Server × L)
  many [] s l = ok (s, l)
  many (ch ∷ chs) s l = step ch s l >>= λ r. many chs r.0 r.1

  -- Where the state of the thread is a part of the state of the system, its steps are a run.
  module _ (t : ThreadId) (get : System → L) (put : System → Server × L → System)
      (moves : (ch : Choice) (y : System)
        → thread_step t ch y ≡ (step ch y.server (get y) >>= λ r. ok (put y r)))
      (server-put : (y : System) (r : Server × L) → (put y r).server ≡ r.0)
      (get-put : (y : System) (r : Server × L) → get (put y r) ≡ r.1)
      (put-put : (y : System) (q r : Server × L) → put (put y q) r ≡ put y r)
      (put-get : (y : System) → put y (y.server, get y) ≡ y) where
    run-many :
        (chs : List Choice) (y : System)
        → run (map (λ ch. (t, ch)) chs) y ≡ (many chs y.server (get y) >>= λ r. ok (put y r))
    unfolding run many
    run-many [] y = ap ok (sym (put-get y))
    run-many (ch ∷ chs) y =
        rw (moves ch y) (after (step ch y.server (get y)) (λ r. run-many chs (put y r)))
      where
        after :
            (o : Outcome (Server × L))
            → ((r : Server × L)
                → run (map (λ c. (t, c)) chs) (put y r)
                  ≡ (many chs (put y r).server (get (put y r)) >>= λ q. ok (put (put y r) q)))
            → (o >>= (λ r. ok (put y r)) >>= run (map (λ c. (t, c)) chs))
              ≡ (o >>= (λ r. many chs r.0 r.1) >>= λ q. ok (put y q))
        after (ok r) rest =
            rest r
            ∙ ap (λ s. many chs s (get (put y r)) >>= λ q. ok (put (put y r) q)) (server-put y r)
            ∙ ap (λ l. many chs r.0 l >>= λ q. ok (put (put y r) q)) (get-put y r)
            ∙ >>=-cong (many chs r.0 r.1) _ _ (λ q. ap ok (put-put y r q))
        after blocked rest = refl
        after (fault e) rest = refl

abbrev pub controller_moves : ℕ → List Choice → List (ThreadId × Choice)
controller_moves i = map (λ ch. (controller_thread i, ch))

abbrev pub worker_moves : ℕ → List Choice → List (ThreadId × Choice)
worker_moves i = map (λ ch. (worker_thread i, ch))

abbrev pub controller_at : ℕ → Choice → Server → Controller → Outcome (Server × Controller)
controller_at i ch s c = controller_step ch (controller_thread i) s c

abbrev pub worker_at : ℕ → Choice → Server → Worker.Pc → Outcome (Server × Worker.Pc)
worker_at i ch s pc = worker_step pc ch (worker_thread i) s

pub run-controller :
    (i : ℕ) (chs : List Choice) (y : System)
    → run (controller_moves i chs) y
      ≡ (many (controller_at i) chs y.server (y.controllers i) >>= λ r. ok (after_controller y i r))
unfolding thread_step
run-controller i =
    run-many (controller_at i) (controller_thread i) (λ y. y.controllers i)
      (λ y r. after_controller y i r) (λ ch y. refl) (λ y r. refl)
      (λ y r. update_same y.controllers i r.1)
      (λ y q r.
        ap (λ f. record y { server = r.0; controllers = f }) (update_twice y.controllers i q.1 r.1))
      (λ y. ap (λ f. record y { controllers = f }) (update_self y.controllers i))

pub run-worker :
    (i : ℕ) (chs : List Choice) (y : System)
    → run (worker_moves i chs) y
      ≡ (many (worker_at i) chs y.server (y.workers i) >>= λ r. ok (after_worker y i r))
unfolding thread_step
run-worker i =
    run-many (worker_at i) (worker_thread i) (λ y. y.workers i) (λ y r. after_worker y i r)
      (λ ch y. refl) (λ y r. refl) (λ y r. update_same y.workers i r.1)
      (λ y q r. ap (λ f. record y { server = r.0; workers = f }) (update_twice y.workers i q.1 r.1))
      (λ y. ap (λ f. record y { workers = f }) (update_self y.workers i))

pub run-append :
    (moves later : List (ThreadId × Choice)) (y : System)
    → run (moves ++ later) y ≡ (run moves y >>= run later)
unfolding run
run-append [] later y = refl
run-append ((t, ch) ∷ moves) later y = after (thread_step t ch y) (λ z. run-append moves later z)
  where
    after :
        (o : Outcome System)
        → ((z : System) → run (moves ++ later) z ≡ (run moves z >>= run later))
        → (o >>= run (moves ++ later)) ≡ (o >>= run moves >>= run later)
    after (ok z) rest = rest z
    after blocked rest = refl
    after (fault e) rest = refl

-- A run that returns something with `P`, and then one that returns something with `Q`.
pub run-then :
    (P Q : System → Type 0) (moves later : List (ThreadId × Choice)) (y : System)
    → Returns (run moves y) P
    → ((z : System) → P z → Returns (run later z) Q)
    → Returns (run (moves ++ later) y) Q
run-then P Q moves later y first second =
    rw (run-append moves later y) (Returns->>= P Q (run moves y) (run later) first second)

pub controller-run :
    (P : Server × Controller → Type 0) (Q : System → Type 0) (i : ℕ) (chs : List Choice)
    (y : System)
    → Returns (many (controller_at i) chs y.server (y.controllers i)) P
    → ((r : Server × Controller) → P r → Q (after_controller y i r))
    → Returns (run (controller_moves i chs) y) Q
controller-run P Q i chs y own there = rw (run-controller i chs y) (Returns->>= P Q _ _ own there)

pub worker-run :
    (P : Server × Worker.Pc → Type 0) (Q : System → Type 0) (i : ℕ) (chs : List Choice) (y : System)
    → Returns (many (worker_at i) chs y.server (y.workers i)) P
    → ((r : Server × Worker.Pc) → P r → Q (after_worker y i r))
    → Returns (run (worker_moves i chs) y) Q
worker-run P Q i chs y own there = rw (run-worker i chs y) (Returns->>= P Q _ _ own there)

-- The same for runs that end with a fault.
pub run-then_fault :
    (e : Fault) (P : System → Type 0) (moves later : List (ThreadId × Choice)) (y : System)
    → Returns (run moves y) P
    → ((z : System) → P z → run later z ≡ fault e)
    → run (moves ++ later) y ≡ fault e
run-then_fault e P moves later y first second =
    let (z, runs, there) = Returns-ok P (run moves y) first in
    run-append moves later y ∙ ap (λ o. o >>= run later) runs ∙ second z there

pub controller-run_fault :
    (e : Fault) (i : ℕ) (chs : List Choice) (y : System)
    → many (controller_at i) chs y.server (y.controllers i) ≡ fault e
    → run (controller_moves i chs) y ≡ fault e
controller-run_fault e i chs y own =
    run-controller i chs y ∙ ap (λ o. o >>= λ r. ok (after_controller y i r)) own

pub worker-run_fault :
    (e : Fault) (i : ℕ) (chs : List Choice) (y : System)
    → many (worker_at i) chs y.server (y.workers i) ≡ fault e
    → run (worker_moves i chs) y ≡ fault e
worker-run_fault e i chs y own =
    run-worker i chs y ∙ ap (λ o. o >>= λ r. ok (after_worker y i r)) own
