-- ===== src/Server/Handlers.antt =====
-- What each handler of src/Server/Threads/controllerThread.cpp does from its first statement to its
-- last, while no other thread moves.
pub mod Stop
pub mod Issue
pub mod Concurrency
pub mod Poll
pub mod Exit
pub mod Work
use multithreaded_network_jo.Prelude.{
  ℕ, zero, suc, Option, none, some, true, if◌then◌else◌, ◌≡◌, Outcome, ok, blocked, fault, ◌>>=◌,
  List, [], ◌∷◌, ◌++◌, refl, sym, append-nil, append_assoc, ◌∙◌, Bytes, length,
}
use multithreaded_network_jo.Commands.{CcMode}
use multithreaded_network_jo.Server.State.{
  ThreadId, MutexName, Server, Packet, size, text, c_str, unlock, signal, same_mutex,
  mutex_server_continue, cond_server_continue,
}
use multithreaded_network_jo.Server.Choice.{Choice, proceeds}
use multithreaded_network_jo.Server.Controller.{Controller, controller_step, entry}
use multithreaded_network_jo.Server.Worker
use multithreaded_network_jo.Server.Worker.{worker_step}

-- So many steps of one controller, with no answer of the environment among them.
unfoldable pub solo : ℕ → ThreadId → Server → Controller → Outcome (Server × Controller)
solo zero t s c = ok (s, c)
solo (suc n) t s c = controller_step proceeds t s c >>= λ r. solo n t r.0 r.1

abbrev pub Returns {ℓ} : {A : Type ℓ} → Outcome A → (A → Type 0) → Type 0
Returns (ok a) P = P a
Returns blocked P = ⊥
Returns (fault e) P = ⊥

-- No thread has a mutex.
abbrev pub Free : Server → Type 0
Free s = (m : MutexName) → s.owner m ≡ none

-- A message on the wire: its size, then its bytes.
abbrev pub message : ℕ → Bytes → List (ℕ × Packet)
message socket s = (socket, size (length (c_str s))) ∷ (socket, text (c_str s)) ∷ []

-- Packets sent one after the other.
abbrev pub send_all : List (ℕ × Packet) → List (ℕ × Packet) → List (ℕ × Packet)
send_all old [] = old
send_all old (p ∷ ps) = send_all (old ++ p ∷ []) ps

pub send_all-append : (old ps : List (ℕ × Packet)) → send_all old ps ≡ old ++ ps
send_all-append old [] = sym (append-nil old)
send_all-append old (p ∷ ps) = send_all-append (old ++ p ∷ []) ps ∙ append_assoc old (p ∷ []) ps

-- A controller that has received a command and begins to execute it.
abbrev pub begins : ℕ → Bytes → CcMode → Controller
begins socket command mode = record {
  client_socket = socket;
  client_command = command;
  client_command_mode = mode;
  pc = entry mode;
}

pub Returns-map {ℓ} :
    {A : Type ℓ} (P Q : A → Type 0) (o : Outcome A)
    → ((a : A) → P a → Q a)
    → Returns o P
    → Returns o Q
Returns-map P Q (ok a) f p = f a p
Returns-map P Q blocked f p = p
Returns-map P Q (fault e) f p = p

-- The server when a controller has let the main thread go on.
unfoldable pub after_continue : ThreadId → Server → Server
after_continue t s = unlock mutex_server_continue (
    signal cond_server_continue (record s {
      owner = λ m. if same_mutex mutex_server_continue m then some t else s.owner m;
      continue_execution = true;
    }))

-- The steps of one worker, with the answers of the environment to them.
unfoldable pub works : List Choice → ThreadId → Server → Worker.Pc → Outcome (Server × Worker.Pc)
works [] t s pc = ok (s, pc)
works (ch ∷ chs) t s pc = worker_step pc ch t s >>= λ r. works chs t r.0 r.1

pub Returns-ok {ℓ} :
    {A : Type ℓ} (P : A → Type 0) (o : Outcome A) → Returns o P → (a : A) × (o ≡ ok a) × P a
Returns-ok P (ok a) p = (a, refl, p)
Returns-ok P blocked p = elim p [ ]
Returns-ok P (fault e) p = elim p [ ]

pub Returns->>= {ℓ κ} :
    {A : Type ℓ} {B : Type κ} (P : A → Type 0) (Q : B → Type 0) (o : Outcome A) (f : A → Outcome B)
    → Returns o P
    → ((a : A) → P a → Returns (f a) Q)
    → Returns (o >>= f) Q
Returns->>= P Q (ok a) f p k = k a p
Returns->>= P Q blocked f p k = p
Returns->>= P Q (fault e) f p k = p

pub works-append :
    (chs later : List Choice) (t : ThreadId) (s : Server) (pc : Worker.Pc)
    → works (chs ++ later) t s pc ≡ (works chs t s pc >>= λ r. works later t r.0 r.1)
unfolding works
works-append [] later t s pc = refl
works-append (ch ∷ chs) later t s pc =
    after (worker_step pc ch t s) (λ r. works-append chs later t r.0 r.1)
  where
    after :
        (o : Outcome (Server × Worker.Pc))
        → ((r : Server × Worker.Pc)
            → works (chs ++ later) t r.0 r.1 ≡ (works chs t r.0 r.1 >>= λ q. works later t q.0 q.1))
        → (o >>= λ r. works (chs ++ later) t r.0 r.1)
          ≡ (o >>= (λ r. works chs t r.0 r.1) >>= λ r. works later t r.0 r.1)
    after (ok r) rest = rest r
    after blocked rest = refl
    after (fault e) rest = refl
