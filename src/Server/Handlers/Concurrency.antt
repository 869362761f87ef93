-- ===== src/Server/Handlers/Concurrency.antt =====
-- The `setConcurrency` command: `setServerConcurrencyLevel`.
use multithreaded_network_jo.Prelude.{
  if◌then◌else◌, ℕ, zero, suc, ◌+◌, ◌-◌, ◌*◌, ◌<◌, ◌^◌, ◌≡◌, ◌∙◌, refl, arith, ◌++◌, none, some,
  true, Bytes, to_string, stoi-to_string, pos, negsuc, int_sub, to_int, leb, ok,
}
use multithreaded_network_jo.Commands.{set_concurrency}
use multithreaded_network_jo.Tools.StringEditor.{remove_first_word, space}
use multithreaded_network_jo.Server.State.{
  ThreadId, mutex_server_continue, mutex_worker, cond_worker, same_mutex, MutexName, Server, lock,
  unlock, signal, send_message,
}
use multithreaded_network_jo.Server.Messages.{level_message}
use multithreaded_network_jo.Server.Controller
use multithreaded_network_jo.Server.Controller.{Controller, controller_step, step_at}
use multithreaded_network_jo.Server.Handlers.{
  solo, Returns, Returns-map, Free, message, send_all-append, begins, after_continue,
}

-- The server `s` but for the waiters of the condition variables, with the controller at its end.
abbrev pub Wakes : Server → Server × Controller → Type 0
Wakes s r = record {
  ended : r.1.pc ≡ Controller.finished;
  set : r.0.concurrency ≡ s.concurrency;
  told : r.0.sent ≡ s.sent;
  queue : r.0.queue ≡ s.queue;
  goes_on : r.0.continue_execution ≡ s.continue_execution;
  free : (m : MutexName) → r.0.owner m ≡ none;
}

abbrev waking : ℕ → Bytes → ℕ → ℕ → Controller
waking socket command i n = record (begins socket command set_concurrency) {
  pc = Controller.level_loop i (pos n);
}

wake_steps : ℕ → ℕ
wake_steps zero = 1
wake_steps (suc k) = suc (suc (suc (suc (wake_steps k))))

wake_steps_lem : (k : ℕ) → wake_steps k ≡ 1 + 4 * k
unfolding wake_steps
wake_steps_lem zero = refl
wake_steps_lem (suc k) = omega (arith, wake_steps_lem k)

-- The server when one more worker has been signalled.
woken : ThreadId → Server → Server
woken t s = unlock mutex_worker (
    signal cond_worker
      (record s { owner = λ m. if same_mutex mutex_worker m then some t else s.owner m }))

room_left :
    (n b : ℕ)
    → n < 2 ^ 31
    → b < 2 ^ 31
    → int_sub (pos n) (to_int b) ≡ ok (if leb b n then pos (n - b) else negsuc (b - n - 1))
unfolding int_sub
room_left n b fits small = ground arith

wake_round :
    (k : ℕ) (t : ThreadId) (s : Server) (socket : ℕ) (command : Bytes) (i n : ℕ)
    → Free s
    → s.busy_workers < 2 ^ 31
    → n < 2 ^ 31
    → i + s.busy_workers < n
    → solo (suc (suc (suc (suc k)))) t s (waking socket command i n)
      ≡ solo k t (woken t s) (waking socket command (i + 1) n)
unfolding solo controller_step step_at lock unlock signal woken
wake_round k t s socket command i n free small fits more =
    ground (arith, free mutex_worker, room_left n s.busy_workers fits small)

wake_last :
    (t : ThreadId) (s : Server) (socket : ℕ) (command : Bytes) (i n : ℕ)
    → Free s
    → s.busy_workers < 2 ^ 31
    → n < 2 ^ 31
    → n < suc (i + s.busy_workers)
    → Returns (solo 1 t s (waking socket command i n)) (Wakes s)
unfolding solo controller_step step_at
wake_last t s socket command i n free small fits over =
    ground (arith, free, room_left n s.busy_workers fits small)

woken-Free : (t : ThreadId) (s : Server) → Free s → Free (woken t s)
unfolding woken unlock signal
woken-Free t s free m = ground (arith, free m)

wake_loop-Wakes :
    (k : ℕ) (t : ThreadId) (s : Server) (socket : ℕ) (command : Bytes) (i n : ℕ)
    → Free s
    → s.busy_workers < 2 ^ 31
    → n < 2 ^ 31
    → n - (i + s.busy_workers) ≡ k
    → Returns (solo (wake_steps k) t s (waking socket command i n)) (Wakes s)
unfolding wake_steps woken unlock signal
wake_loop-Wakes zero t s socket command i n free small fits e =
    wake_last t s socket command i n free small fits (omega arith)
wake_loop-Wakes (suc k) t s socket command i n free small fits e =
    rw (wake_round (wake_steps k) t s socket command i n free small fits (omega arith)) (
      wake_loop-Wakes k t (woken t s) socket command (i + 1) n (woken-Free t s free) small fits
        (omega arith))

answered : ThreadId → ℕ → ℕ → Server → Server
answered t socket n s =
    send_message socket (level_message (to_string n))
      (record (after_continue t s) { concurrency = n })

level_begins :
    (k : ℕ) (t : ThreadId) (s : Server) (socket : ℕ) (command : Bytes) (n : ℕ)
    → Free s
    → n < 2 ^ 31
    → remove_first_word command space ≡ to_string n
    → solo (suc (suc (suc (suc (suc (suc k)))))) t s (begins socket command set_concurrency)
      ≡ solo k t (answered t socket n s) (waking socket command 0 n)
unfolding solo controller_step step_at lock unlock signal answered send_message after_continue
level_begins k t s socket command n free small e =
    ground (arith, free mutex_server_continue, e, stoi-to_string n small)

answered-Free : (t : ThreadId) (socket n : ℕ) (s : Server) → Free s → Free (answered t socket n s)
unfolding answered send_message after_continue unlock signal
answered-Free t socket n s free m = ground (arith, free m)

-- The server `s` after the whole handler, and its controller.
abbrev pub Leveled : ℕ → ℕ → Server → Server × Controller → Type 0
Leveled socket n s r = record {
  ended : r.1.pc ≡ Controller.finished;
  set : r.0.concurrency ≡ n;
  told : r.0.sent ≡ s.sent ++ message socket (level_message (to_string n));
  queue : r.0.queue ≡ s.queue;
  goes_on : r.0.continue_execution ≡ true;
  free : (m : MutexName) → r.0.owner m ≡ none;
}

-- A `setConcurrency` command with the decimal print of a non-negative `int` `n`, with no other thread
-- moving, no mutex taken and fewer than 2^31 busy workers: the controller ends, however many workers
-- it signals; the concurrency is `n`, the client is told so, the waiting buffer is as before, the
-- main thread may go on, and no mutex stays taken.
pub set_concurrency_sets :
    (t : ThreadId) (s : Server) (socket n : ℕ) (command : Bytes)
    → Free s
    → s.busy_workers < 2 ^ 31
    → n < 2 ^ 31
    → remove_first_word command space ≡ to_string n
    → Returns
        (solo (7 + 4 * (n - s.busy_workers)) t s (begins socket command set_concurrency))
        (Leveled socket n s)
unfolding answered send_message after_continue unlock signal
set_concurrency_sets t s socket n command free small fits e =
    let k = n - s.busy_workers in
    let f : 7 + 4 * k ≡ suc (suc (suc (suc (suc (suc (wake_steps k)))))) =
      omega (arith, wake_steps_lem k) in
    rw (f, level_begins (wake_steps k) t s socket command n free fits e)
      (Returns-map (Wakes (answered t socket n s)) _ _
        (λ r q. record {
          ended = q.ended;
          set = q.set;
          told = q.told ∙ send_all-append s.sent (message socket (level_message (to_string n)));
          queue = q.queue;
          goes_on = q.goes_on;
          free = q.free;
        })
        (wake_loop-Wakes k t (answered t socket n s) socket command 0 n
          (answered-Free t socket n s free) small fits (omega arith)))
