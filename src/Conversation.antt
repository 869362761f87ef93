-- ===== src/Conversation.antt =====
-- A client of src/Client and the server of src/Server together: what the client prints of what the
-- server's threads have sent to its socket.
pub mod Overtaken
pub mod Mixed
pub mod Short
pub mod Level
pub mod Removed
pub mod Listing
pub mod Ending
pub mod Cancelled
use multithreaded_network_jo.Prelude.{
  ℕ, ◌<◌, ◌^◌, ◌≡◌, ◌≢◌, refl, sym, ap, subst, ◌∙◌, arith, List, [], ◌∷◌, ◌++◌, map, false,
  if◌then◌else◌, ◌==◌, Bytes, codes, length, same_text, Lacks, IsAllocator, Outcome, ok, blocked,
  fault, ◌>>=◌,
}
use multithreaded_network_jo.Commands.{JobTriplate, issue_job, get_client_command_mode}
use multithreaded_network_jo.Tools.WaitingBufferQueue.{insert_job_triplate}
use multithreaded_network_jo.Tools.WaitingBufferQueue.Search.{queue_of}
use multithreaded_network_jo.Server.State.{
  ThreadId, mutex_server_continue, mutex_controller, mutex_job_insertion, Packet, size, text,
  Server, c_str, lock, unlock, signal, send_message,
}
use multithreaded_network_jo.Server.Messages.{submit_message}
use multithreaded_network_jo.Server.Controller.{Controller, controller_step, step_at}
use multithreaded_network_jo.Server.Worker
use multithreaded_network_jo.Server.Worker.{create_output_response}
use multithreaded_network_jo.Server.Handlers.{
  solo, works, Returns, Returns->>=, Returns-map, Free, message, begins,
}
use multithreaded_network_jo.Server.Handlers.Issue.{Submitted, next_job, issue_job_submits}
use multithreaded_network_jo.Server.Handlers.Work.{job_runs, Worked, worker_runs_job}
use multithreaded_network_jo.Client.Receivers.{SizeRead, size_read, Chunk, chunk}
use multithreaded_network_jo.Client.Receivers.Delivered.{joined}
use multithreaded_network_jo.Client.Process.{Reads, receive_server_response, cancellation}
use multithreaded_network_jo.Client.Process.Exchange.{issue_job_prints}

-- The packets for one socket, in the order in which they were sent.
abbrev pub packets_for : ℕ → List (ℕ × Packet) → List Packet
packets_for socket [] = []
packets_for socket ((k, p) ∷ sent) =
    let later = packets_for socket sent in if k == socket then p ∷ later else later

-- The packets are messages, and the reads give each of them in full, its text in any pieces.
abbrev pub Arrives : List Packet → List (SizeRead × List Chunk) → Type 0
Arrives [] [] = Unit
Arrives (size n ∷ text t ∷ packets) (answer ∷ answers) =
    ((pieces : List Bytes) × (joined pieces ≡ t) × (answer ≡ (size_read n, map chunk pieces)))
    × Arrives packets answers
Arrives _ _ = ⊥

packets_for-append :
    (socket : ℕ) (xs ys : List (ℕ × Packet))
    → packets_for socket (xs ++ ys) ≡ packets_for socket xs ++ packets_for socket ys
packets_for-append socket [] ys = refl
packets_for-append socket ((k, p) ∷ xs) ys = ground (arith, packets_for-append socket xs ys)

packets_for-message :
    (socket : ℕ) (m : Bytes)
    → packets_for socket (message socket m) ≡ size (length (c_str m)) ∷ text (c_str m) ∷ []
packets_for-message socket m = ground arith

-- The packets of a message for another socket are none of this one's.
pub packets_for-other :
    (socket k : ℕ) (m : Bytes) → k ≢ socket → packets_for socket (message k m) ≡ []
packets_for-other socket k m other = ground arith

pub Lacks-c_str : (s : Bytes) → Lacks 0 (c_str s)
unfolding c_str
Lacks-c_str [] = tt
Lacks-c_str (c ∷ s) = ground (arith, Lacks-c_str s)

pub submit-not_cancelled :
    (j : JobTriplate) → same_text (c_str (submit_message j)) cancellation ≡ false
unfolding c_str same_text
submit-not_cancelled j = refl

-- The counters and the concurrency are those of another server.
abbrev SameLevel : Server → Server × Controller → Type 0
SameLevel s r =
    (r.0.running_jobs ≡ s.running_jobs)
    × (r.0.busy_workers ≡ s.busy_workers)
    × (r.0.concurrency ≡ s.concurrency)

-- What a client prints of the packets that it has been sent.
abbrev pub Prints : {A : Type 0} → (ℕ → Bytes) → Bytes → ℕ → List Bytes → Server × A → Type 0
Prints fresh command socket lines r =
    (reads : Reads)
    → Arrives (packets_for socket r.0.sent) (reads.first_answer ∷ reads.second_answer ∷ [])
    → receive_server_response fresh command reads ≡ ok lines

-- The `issueJob` handler leaves the counters and the concurrency alone.
issue-counters :
    (t : ThreadId) (s : Server) (n socket : ℕ) (command : Bytes)
    → Free s
    → 0 < n
    → Returns
        (solo 13 t (record s { queue = queue_of n [] }) (begins socket command issue_job))
        (SameLevel s)
unfolding solo controller_step step_at lock unlock signal send_message insert_job_triplate
issue-counters t s n socket command free room =
    ground (arith, free mutex_server_continue, free mutex_controller, free mutex_job_insertion)

-- Two messages that arrive are the two lines that the client prints.
pub two_messages_printed :
    (fresh : ℕ → Bytes) (command a b : Bytes) (reads : Reads)
    → IsAllocator fresh
    → get_client_command_mode command ≡ issue_job
    → same_text (c_str a) cancellation ≡ false
    → Arrives
        (size (length (c_str a)) ∷ text (c_str a) ∷ size (length (c_str b)) ∷ text (c_str b) ∷ [])
        (reads.first_answer ∷ reads.second_answer ∷ [])
    → receive_server_response fresh command reads ≡ ok (c_str a ∷ c_str b ∷ [])
two_messages_printed fresh command a b reads alloc mode other
      ((first, e1, r1), ((second, e2, r2), done)) =
    issue_job_prints fresh command reads first second alloc mode
      (r1 ∙ ap (λ m. (size_read (length m), map chunk first)) (sym e1))
      (r2 ∙ ap (λ m. (size_read (length m), map chunk second)) (sym e2)) (rw e1 (Lacks-c_str a))
      (rw e2 (Lacks-c_str b))
    ∙ rw (e1, e2, other)

-- The packets of a submission and of a job's response are the two messages, in this order.
packets_of_job :
    (socket : ℕ) (before sent sent' : List (ℕ × Packet)) (a b : Bytes)
    → packets_for socket before ≡ []
    → sent ≡ before ++ message socket a
    → sent' ≡ sent ++ message socket b
    → packets_for socket sent'
      ≡ size (length (c_str a)) ∷ text (c_str a) ∷ size (length (c_str b)) ∷ text (c_str b) ∷ []
packets_of_job socket before sent sent' a b none_yet e e' =
    ap (packets_for socket) e'
    ∙ packets_for-append socket sent (message socket b)
    ∙ ap (λ l. packets_for socket l ++ packets_for socket (message socket b)) e
    ∙ ap (λ l. l ++ packets_for socket (message socket b))
        (packets_for-append socket before (message socket a))
    ∙ rw (none_yet, packets_for-message socket a, packets_for-message socket b)

Returns-both :
    {A : Type 0} (P Q : A → Type 0) (o : Outcome A)
    → Returns o P
    → Returns o Q
    → Returns o (λ a. P a × Q a)
Returns-both P Q (ok a) p q = (p, q)
Returns-both P Q blocked p q = p
Returns-both P Q (fault e) p q = p

-- A client sends `issueJob` to a server with an empty waiting buffer, no mutex taken and a free
-- place among the running jobs; its controller runs to the end, and then a worker that runs the
-- job, no other thread moving. The client prints exactly two lines: that its job is submitted,
-- under the next identifier, and the output of the job between its first and last line (each up to
-- a zero byte), however the stream cuts the texts into pieces and whatever the client's arrays
-- held.
pub submitted_job_printed :
    (fresh : ℕ → Bytes) (t u : ThreadId) (s : Server) (n socket : ℕ) (command output : Bytes)
    → IsAllocator fresh
    → get_client_command_mode command ≡ issue_job
    → Free s
    → packets_for socket s.sent ≡ []
    → 0 < n
    → n < 2 ^ 32
    → s.running_jobs ≢ s.concurrency
    → s.running_jobs < 2 ^ 32
    → s.busy_workers < 2 ^ 32
    → let j = next_job s.jobs_entered socket command in
      Returns
        (solo 13 t (record s { queue = queue_of n [] }) (begins socket command issue_job) >>= λ c.
          works (job_runs output) u c.0 Worker.idle_lock)
        (Prints fresh command socket (
          c_str (codes "JOB <" ++ j.job_id ++ codes ", " ++ j.job ++ codes "> SUBMITTED")
          ∷ c_str (create_output_response output j.job_id)
          ∷ []))
submitted_job_printed fresh t u s n socket command output alloc mode free silent room small idle few
      busy =
    let j = next_job s.jobs_entered socket command in
    let lines : List Bytes =
      c_str (submit_message j) ∷ c_str (create_output_response output j.job_id) ∷ [] in
    Returns->>= (λ c. Submitted n [] j s c × SameLevel s c) (Prints fresh command socket lines) _ _
      (Returns-both (Submitted n [] j s) (SameLevel s)
        (solo 13 t (record s { queue = queue_of n [] }) (begins socket command issue_job))
        (issue_job_submits t s n socket [] command free room small)
        (issue-counters t s n socket command free room))
      (λ c h.
        let (submits, (running, busy_same, level)) = h in
        Returns-map (Worked n j [] output c.0) (Prints fresh command socket lines)
          (works (job_runs output) u c.0 Worker.idle_lock)
          (λ r w reads arrives.
            two_messages_printed fresh command (submit_message j)
              (create_output_response output j.job_id) reads alloc mode (submit-not_cancelled j)
              (subst (λ ps. Arrives ps (reads.first_answer ∷ reads.second_answer ∷ []))
                (packets_of_job socket s.sent c.0.sent r.0.sent (submit_message j)
                  (create_output_response output j.job_id) silent submits.told w.told)
                arrives))
          (subst
            (λ q.
              Returns (works (job_runs output) u (record (c.0) { queue = q }) Worker.idle_lock)
                (Worked n j [] output c.0))
            (sym submits.inserted)
            (worker_runs_job u c.0 n j [] output submits.free (rw (running, level) idle)
              (rw running few) (rw busy_same busy) (omega arith))))
