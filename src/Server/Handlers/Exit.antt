-- ===== src/Server/Handlers/Exit.antt =====
-- The `exit` command: `terminateServer`.
use multithreaded_network_jo.Prelude.{
  if◌then◌else◌, ℕ, suc, ◌+◌, ◌*◌, ◌<◌, ◌^◌, ◌≡◌, ◌∙◌, ap, refl, arith, List, [], ◌∷◌, ◌++◌,
  append_assoc, none, some, ok, true, Bytes, length,
}
use multithreaded_network_jo.Commands.{JobTriplate, exit}
use multithreaded_network_jo.Tools.WaitingBufferQueue.{get_job_triplate}
use multithreaded_network_jo.Tools.WaitingBufferQueue.Search.{queue_of, decrease-append}
use multithreaded_network_jo.Server.State.{
  ThreadId, mutex_server_continue, mutex_controller, mutex_all_jobs_done, cond_controller,
  same_mutex, MutexName, CondVar, Server, Packet, lock, unlock, signal, broadcast, send_message,
}
use multithreaded_network_jo.Server.Messages.{drain_message, exit_message}
use multithreaded_network_jo.Server.Controller
use multithreaded_network_jo.Server.Controller.{Controller, controller_step, step_at}
use multithreaded_network_jo.Server.Handlers.{
  solo, Returns, Returns-map, Free, message, send_all-append, begins,
}

-- The notices for the clients whose jobs still wait, in the order of the jobs.
abbrev pub exit_messages : List JobTriplate → List (ℕ × Packet)
exit_messages [] = []
exit_messages (j ∷ js) = message j.socket_id drain_message ++ exit_messages js

abbrev pub Terminates : ℕ → CondVar → List (ℕ × Packet) → Server × Controller → Type 0
Terminates n v packets r = record {
  cancels : r.0.controllers_should_stop ≡ true;
  woken : r.0.cond cond_controller ≡ v;
  ended : r.1.pc ≡ Controller.finished;
  emptied : r.0.queue ≡ queue_of n [];
  told : r.0.sent ≡ packets;
  stopped : r.0.should_stop ≡ true;
  goes_on : r.0.continue_execution ≡ true;
  free : (m : MutexName) → r.0.owner m ≡ none;
}

abbrev holding : ℕ → List JobTriplate → Server → Server
holding n xs s = record s { queue = queue_of n xs }

abbrev draining : ℕ → Bytes → Controller
draining socket command = record (begins socket command exit) { pc = Controller.drain_check }

notice : JobTriplate → Server → Server
notice j s = send_message j.socket_id drain_message s

get-queue_of :
    (n : ℕ) (x : JobTriplate) (xs : List JobTriplate)
    → length (x ∷ xs) < 2 ^ 32
    → get_job_triplate (queue_of n (x ∷ xs)) ≡ ok (x, queue_of n xs)
unfolding get_job_triplate
get-queue_of n x xs h = rw (decrease-append [] xs x h)

drain_step :
    (k : ℕ) (t : ThreadId) (s : Server) (n socket : ℕ) (command : Bytes) (x : JobTriplate)
    (xs : List JobTriplate)
    → length (x ∷ xs) < 2 ^ 32
    → solo (suc (suc (suc (suc k)))) t (holding n (x ∷ xs) s) (draining socket command)
      ≡ solo k t (holding n xs (notice x s)) (draining socket command)
unfolding solo controller_step step_at notice send_message
drain_step k t s n socket command x xs h = ground (arith, get-queue_of n x xs h)

drain_ends :
    (t : ThreadId) (s : Server) (n socket : ℕ) (command : Bytes)
    → Free s
    → s.controllers_should_stop ≡ true
    → s.running_jobs ≡ 0
    → Returns
        (solo 10 t (holding n [] s) (draining socket command))
        (Terminates n (s.cond cond_controller) (s.sent ++ message socket exit_message))
unfolding solo controller_step step_at lock unlock signal send_message
drain_ends t s n socket command free stops idle = ground (
  arith,
  free mutex_all_jobs_done,
  free mutex_server_continue,
  free,
  send_all-append s.sent (message socket exit_message),
)

drain_steps : List JobTriplate → ℕ
drain_steps [] = 10
drain_steps (x ∷ xs) = suc (suc (suc (suc (drain_steps xs))))

drain_steps-length : (xs : List JobTriplate) → drain_steps xs ≡ 10 + 4 * length xs
unfolding drain_steps
drain_steps-length [] = refl
drain_steps-length (x ∷ xs) = omega (arith, drain_steps-length xs)

drain-Terminates :
    (t : ThreadId) (s : Server) (n socket : ℕ) (command : Bytes) (xs : List JobTriplate)
    → length xs < 2 ^ 32
    → Free s
    → s.controllers_should_stop ≡ true
    → s.running_jobs ≡ 0
    → Returns (solo (drain_steps xs) t (holding n xs s) (draining socket command)) (
        Terminates n
          (s.cond cond_controller)
          (s.sent ++ (exit_messages xs ++ message socket exit_message)))
unfolding drain_steps notice send_message
drain-Terminates t s n socket command [] h free stops idle =
    drain_ends t s n socket command free stops idle
drain-Terminates t s n socket command (x ∷ xs) h free stops idle =
    rw (drain_step (drain_steps xs) t s n socket command x xs h) (
      Returns-map (Terminates n (s.cond cond_controller) ((notice x s).sent ++ rest))
        (Terminates n (s.cond cond_controller)
          (s.sent ++ (exit_messages (x ∷ xs) ++ message socket exit_message)))
        _
        (λ r q. record {
          cancels = q.cancels;
          woken = q.woken;
          ended = q.ended;
          emptied = q.emptied;
          told =
              q.told
              ∙ ap (λ l. l ++ rest) (send_all-append s.sent told_first)
              ∙ append_assoc s.sent told_first rest;
          stopped = q.stopped;
          goes_on = q.goes_on;
          free = q.free;
        })
        (drain-Terminates t (notice x s) n socket command xs (omega arith) free stops idle))
  where
    rest : List (ℕ × Packet)
    rest = exit_messages xs ++ message socket exit_message

    told_first : List (ℕ × Packet)
    told_first = message x.socket_id drain_message

-- The server when the drain of the buffer begins.
stopping : ThreadId → Server → Server
stopping t s = unlock mutex_controller (
    broadcast cond_controller (record s {
      owner = λ m. if same_mutex mutex_controller m then some t else s.owner m;
      controllers_should_stop = true;
    }))

exit_begins :
    (k : ℕ) (t : ThreadId) (s : Server) (n socket : ℕ) (xs : List JobTriplate) (command : Bytes)
    → Free s
    → solo (suc (suc (suc (suc k)))) t (holding n xs s) (begins socket command exit)
      ≡ solo k t (holding n xs (stopping t s)) (draining socket command)
unfolding solo controller_step step_at lock stopping unlock broadcast
exit_begins k t s n socket xs command free = ground (arith, free mutex_controller)

stopping-Free : (t : ThreadId) (s : Server) → Free s → Free (stopping t s)
unfolding stopping unlock broadcast
stopping-Free t s free m = ground (arith, free m)

-- A condition variable behind a broadcast.
abbrev pub everybody : CondVar → CondVar
everybody v = record { waiting = v.waiting; wakeups = v.waiting }

-- An `exit` command, with no other thread moving, no mutex taken and no job running: the waiting
-- buffer is emptied; the client of each job that waited is told, in the order of the jobs, and then
-- the client that asked; the controllers that wait for room are woken and told to stop, the server
-- is set to stop, the main thread may go on, the controller ends and no mutex stays taken.
pub exit_ends_server :
    (t : ThreadId) (s : Server) (n socket : ℕ) (xs : List JobTriplate) (command : Bytes)
    → Free s
    → length xs < 2 ^ 32
    → s.running_jobs ≡ 0
    → Returns
        (solo
          (14 + 4 * length xs)
          t
          (record s { queue = queue_of n xs })
          (begins socket command exit))
        (Terminates n
          (everybody (s.cond cond_controller))
          (s.sent ++ (exit_messages xs ++ message socket exit_message)))
unfolding stopping unlock broadcast
exit_ends_server t s n socket xs command free h idle =
    let e : 14 + 4 * length xs ≡ suc (suc (suc (suc (drain_steps xs)))) =
      omega (arith, drain_steps-length xs) in
    rw (e, exit_begins (drain_steps xs) t s n socket xs command free)
      (drain-Terminates t (stopping t s) n socket command xs h (stopping-Free t s free) refl idle)
