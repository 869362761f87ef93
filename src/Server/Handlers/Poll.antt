-- ===== src/Server/Handlers/Poll.antt =====
-- The `poll` command: `sendWaitingJobsToClient`.
use multithreaded_network_jo.Prelude.{
  ℕ, suc, ◌+◌, ◌*◌, ◌<◌, ◌^◌, ◌≡◌, ◌∙◌, ap, refl, sym, arith, List, [], ◌∷◌, ◌++◌, append_assoc,
  append-nil, Bytes, length, length-append, lt→ltb, le→ltb,
}
use multithreaded_network_jo.Commands.{JobTriplate, poll}
use multithreaded_network_jo.Tools.WaitingBufferQueue.Search.{queue_of, at-append, next_index}
use multithreaded_network_jo.Server.State.{
  ThreadId, mutex_server_continue, Server, Packet, size, lock, unlock, signal, send_message, send,
}
use multithreaded_network_jo.Server.Messages.{poll_message}
use multithreaded_network_jo.Server.Controller
use multithreaded_network_jo.Server.Controller.{Controller, controller_step, step_at}
use multithreaded_network_jo.Server.Handlers.{
  solo, Returns, Returns-map, Free, message, send_all-append, begins, after_continue,
}

-- The messages for the jobs that wait, in their order.
abbrev pub job_messages : ℕ → List JobTriplate → List (ℕ × Packet)
job_messages socket [] = []
job_messages socket (j ∷ js) = message socket (poll_message j) ++ job_messages socket js

abbrev pub Listed : List (ℕ × Packet) → List JobTriplate → ℕ → Server × Controller → Type 0
Listed packets xs n r =
    (r.1.pc ≡ Controller.finished) × (r.0.queue ≡ queue_of n xs) × (r.0.sent ≡ packets)

-- The controller in its loop, behind the jobs `before`, and the server with a certain buffer.
abbrev looping : ℕ → Bytes → List JobTriplate → List JobTriplate → Controller
looping socket command before all = record (begins socket command poll) {
  pc = Controller.poll_loop (length before) (length all);
}

abbrev holding : ℕ → List JobTriplate → Server → Server
holding n xs s = record s { queue = queue_of n xs }

poll_step :
    (k : ℕ) (t : ThreadId) (s : Server) (n socket : ℕ) (command : Bytes)
    (before xs : List JobTriplate) (x : JobTriplate)
    → length (before ++ x ∷ xs) < 2 ^ 32
    → solo
        (suc (suc k))
        t
        (holding n (before ++ x ∷ xs) s)
        (looping socket command before (before ++ x ∷ xs))
      ≡ solo k t
          (holding n ((before ++ x ∷ []) ++ xs) (send_message socket (poll_message x) s))
          (looping socket command (before ++ x ∷ []) ((before ++ x ∷ []) ++ xs))
unfolding solo controller_step step_at send_message
poll_step k t s n socket command before xs x h = rw (
  append_assoc before (x ∷ []) xs,
  lt→ltb (length before) (length (before ++ x ∷ xs)) (omega (arith, length-append before (x ∷ xs))),
  at-append n before xs x,
  next_index before xs x h,
)

poll_steps : List JobTriplate → ℕ
poll_steps [] = 1
poll_steps (x ∷ xs) = suc (suc (poll_steps xs))

poll_steps-length : (xs : List JobTriplate) → poll_steps xs ≡ 1 + 2 * length xs
unfolding poll_steps
poll_steps-length [] = refl
poll_steps-length (x ∷ xs) = omega (arith, poll_steps-length xs)

poll_loop-Listed :
    (t : ThreadId) (s : Server) (n socket : ℕ) (command : Bytes) (before xs : List JobTriplate)
    → length (before ++ xs) < 2 ^ 32
    → Returns
        (solo
          (poll_steps xs)
          t
          (holding n (before ++ xs) s)
          (looping socket command before (before ++ xs)))
        (Listed (s.sent ++ job_messages socket xs) (before ++ xs) n)
unfolding solo controller_step step_at send_message poll_steps
poll_loop-Listed t s n socket command before [] h =
    rw (le→ltb (length before) (length (before ++ [])) (omega (arith, length-append before [])))
      (refl, refl, sym (append-nil s.sent))
poll_loop-Listed t s n socket command before (x ∷ xs) h =
    rw (poll_step (poll_steps xs) t s n socket command before xs x h) (
      Returns-map _ _ _ regroup (
        poll_loop-Listed t (send_message socket text_of s) n socket command (before ++ x ∷ []) xs
          (rw (append_assoc before (x ∷ []) xs) h)))
  where
    text_of : Bytes
    text_of = poll_message x

    regroup :
        (r : Server × Controller)
        → Listed
            ((send_message socket text_of s).sent ++ job_messages socket xs)
            ((before ++ x ∷ []) ++ xs)
            n
            r
        → Listed (s.sent ++ job_messages socket (x ∷ xs)) (before ++ x ∷ xs) n r
    regroup r (a, b, c) = (
      a,
      b ∙ ap (queue_of n) (append_assoc before (x ∷ []) xs),
      c
          ∙ ap (λ l. l ++ job_messages socket xs) (send_all-append s.sent (message socket text_of))
          ∙ append_assoc s.sent (message socket text_of) (job_messages socket xs),
    )

-- The server when the loop begins: the main thread may go on, and the number of jobs is sent.
counted : ThreadId → ℕ → ℕ → Server → Server
unfolding after_continue
counted t socket count s = send socket (size count) (after_continue t s)

poll_begins :
    (k : ℕ) (t : ThreadId) (s : Server) (n socket : ℕ) (xs : List JobTriplate) (command : Bytes)
    → Free s
    → solo (suc (suc (suc (suc k)))) t (holding n xs s) (begins socket command poll)
      ≡ solo k t (holding n xs (counted t socket (length xs) s)) (looping socket command [] xs)
unfolding solo controller_step step_at lock counted unlock signal
poll_begins k t s n socket xs command free = ground (arith, free mutex_server_continue)

-- A `poll` command, with no other thread moving and no mutex taken: the client gets the number of
-- jobs that wait and then one message for each of them, with its text and its identifier, in the
-- order of the waiting buffer; the buffer keeps its jobs, and the controller ends.
pub poll_lists :
    (t : ThreadId) (s : Server) (n socket : ℕ) (xs : List JobTriplate) (command : Bytes)
    → Free s
    → length xs < 2 ^ 32
    → Returns
        (solo
          (5 + 2 * length xs)
          t
          (record s { queue = queue_of n xs })
          (begins socket command poll))
        (Listed (s.sent ++ (socket, size (length xs)) ∷ job_messages socket xs) xs n)
unfolding counted unlock signal
poll_lists t s n socket xs command free h =
    let e : 5 + 2 * length xs ≡ suc (suc (suc (suc (poll_steps xs)))) =
      omega (arith, poll_steps-length xs) in
    rw (e, poll_begins (poll_steps xs) t s n socket xs command free)
      (Returns-map (Listed ((counted t socket (length xs) s).sent ++ job_messages socket xs) xs n)
        (Listed (s.sent ++ (socket, size (length xs)) ∷ job_messages socket xs) xs n) _
        (λ r q. (
          q.0,
          q.1,
          q.2 ∙ append_assoc s.sent ((socket, size (length xs)) ∷ []) (job_messages socket xs),
        ))
        (poll_loop-Listed t (counted t socket (length xs) s) n socket command [] xs h))
