-- ===== src/Conversation/Cancelled.antt =====
-- `issueJob` at a full waiting buffer, and an `exit` while its controller waits for room.
use multithreaded_network_jo.Prelude.{
  ℕ, ◌+◌, ◌*◌, ◌<◌, ◌^◌, ◌≡◌, ◌≢◌, ◌∙◌, refl, sym, subst, arith, List, [], ◌∷◌, ◌++◌, Bytes, length,
  IsAllocator, ok, ◌>>=◌,
}
use multithreaded_network_jo.Commands.{JobTriplate, issue_job, exit, get_client_command_mode}
use multithreaded_network_jo.Tools.WaitingBufferQueue.Search.{queue_of}
use multithreaded_network_jo.Server.State.{
  cond_controller, ThreadId, Packet, Server, c_str, CondVar,
}
use multithreaded_network_jo.Server.Messages.{cancel_message, exit_message}
use multithreaded_network_jo.Server.Controller
use multithreaded_network_jo.Server.Controller.{Controller}
use multithreaded_network_jo.Server.Handlers.{
  solo, Returns, Returns->>=, Returns-map, Free, message, begins,
}
use multithreaded_network_jo.Server.Handlers.Issue.{
  AtFull, issue_job_waits, Cancelled, waiting-Cancelled,
}
use multithreaded_network_jo.Server.Handlers.Exit.{
  everybody, exit_messages, Terminates, exit_ends_server,
}
use multithreaded_network_jo.Client.Process.{Reads, receive_server_response}
use multithreaded_network_jo.Client.Process.Exchange.{cancelled_prints}
use multithreaded_network_jo.Conversation.{
  packets_for, packets_for-append, packets_for-message, packets_for-other, Arrives,
}
use multithreaded_network_jo.Conversation.Ending.{Others, packets_for-Others, packets_of_exit}

-- What the client makes of the packets that it has been sent, whatever a second answer would be.
abbrev pub PrintsOnly : (ℕ → Bytes) → Bytes → ℕ → Bytes → Server × Controller → Type 0
PrintsOnly fresh command socket line r =
    (reads : Reads)
    → Arrives (packets_for socket r.0.sent) (reads.first_answer ∷ [])
    → receive_server_response fresh command reads ≡ ok (line ∷ [])

-- The end of the run, and what the client prints.
abbrev pub CancelledOnly : (ℕ → Bytes) → Bytes → ℕ → ℕ → Server × Controller → Type 0
CancelledOnly fresh command socket n r =
    (r.1.pc ≡ Controller.finished)
    × (r.0.queue ≡ queue_of n [])
    × PrintsOnly fresh command socket cancel_message r

cancel_message-c_str : c_str cancel_message ≡ cancel_message
unfolding c_str
cancel_message-c_str = refl

cancellation_printed :
    (fresh : ℕ → Bytes) (command : Bytes) (socket : ℕ) (reads : Reads)
    → IsAllocator fresh
    → get_client_command_mode command ≡ issue_job
    → Arrives (packets_for socket (message socket cancel_message)) (reads.first_answer ∷ [])
    → receive_server_response fresh command reads ≡ ok (cancel_message ∷ [])
cancellation_printed fresh command socket reads alloc mode arrives =
    let ((pieces, whole, read), done) =
      rw (packets_for-message socket cancel_message, cancel_message-c_str) at arrives in
    cancelled_prints fresh command reads pieces alloc mode whole read

packets_of_cancelled :
    (socket asker : ℕ) (before between sent : List (ℕ × Packet)) (xs : List JobTriplate)
    → Others socket xs
    → asker ≢ socket
    → packets_for socket before ≡ []
    → between ≡ before ++ (exit_messages xs ++ message asker exit_message)
    → sent ≡ between ++ message socket cancel_message
    → packets_for socket sent ≡ packets_for socket (message socket cancel_message)
packets_of_cancelled socket asker before between sent xs foreign other silent e e' =
    rw
      (
        e',
        packets_for-append socket between (message socket cancel_message),
        packets_of_exit socket asker before between xs e,
        silent,
        packets_for-Others socket xs foreign,
        packets_for-other socket asker exit_message other,
      )
      refl

-- A client sends `issueJob` to a server whose buffer, with room for fewer than 2^32 jobs, is full,
-- and its controller goes as far as it gets; another client then sends `exit`, and its controller
-- runs to the end; then the first controller runs to its end. No other thread moves, no mutex is
-- taken and no job runs at the start, and the first client has neither been sent anything nor a job
-- in the buffer. Its job is not put into the buffer, which is empty in the end, and it prints
-- exactly one line: that the submission is cancelled.
pub cancelled_job_printed :
    (fresh : ℕ → Bytes) (t u : ThreadId) (s : Server) (n socket asker : ℕ) (xs : List JobTriplate)
    (command typed : Bytes)
    → IsAllocator fresh
    → get_client_command_mode command ≡ issue_job
    → Free s
    → length xs ≡ n
    → n < 2 ^ 32
    → s.running_jobs ≡ 0
    → Others socket xs
    → asker ≢ socket
    → packets_for socket s.sent ≡ []
    → Returns
        (solo 6 t (record s { queue = queue_of n xs }) (begins socket command issue_job) >>= λ a.
          solo (14 + 4 * length xs) u a.0 (begins asker typed exit) >>= λ b. solo 5 t b.0 a.1)
        (CancelledOnly fresh command socket n)
cancelled_job_printed fresh t u s n socket asker xs command typed alloc mode free full small idle
      foreign other silent =
    Returns->>= (AtFull n socket xs s) (CancelledOnly fresh command socket n) _ _
      (issue_job_waits t s n socket xs command free full)
      (λ a h.
        let packets : List (ℕ × Packet) =
          a.0.sent ++ (exit_messages xs ++ message asker exit_message) in
        let room : CondVar = everybody (a.0.cond cond_controller) in
        Returns->>= (Terminates n room packets) (CancelledOnly fresh command socket n) _ _
          (subst
            (λ q.
              Returns
                (solo (14 + 4 * length xs) u (record (a.0) { queue = q }) (begins asker typed exit))
                (Terminates n room packets))
            (sym h.untouched)
            (exit_ends_server u a.0 n asker xs typed h.free (rw full small) (h.running ∙ idle)))
          (λ b q.
            Returns-map (Cancelled b.0 a.1) (CancelledOnly fresh command socket n)
              (solo 5 t b.0 a.1)
              (λ r c. (
                c.ended,
                c.queue ∙ q.emptied,
                λ reads arrives. cancellation_printed fresh command socket reads alloc mode (
                    subst (λ ps. Arrives ps (reads.first_answer ∷ []))
                      (packets_of_cancelled socket asker a.0.sent b.0.sent r.0.sent xs foreign other
                        (rw h.silent silent) q.told (rw h.answers at c.told))
                      arrives),
              ))
              (waiting-Cancelled t b.0 a.1 h.waits q.free q.cancels
                (rw (q.woken, h.counted) (omega arith)) (rw (q.woken, h.counted) (omega arith)))))
