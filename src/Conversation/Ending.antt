-- ===== src/Conversation/Ending.antt =====
-- `exit` and the clients that it answers: the one that typed it, and those whose jobs still wait.
use multithreaded_network_jo.Prelude.{
  ℕ, ◌+◌, ◌*◌, ◌<◌, ◌^◌, ◌≡◌, ◌≢◌, ◌∙◌, refl, sym, arith, List, [], ◌∷◌, ◌++◌, if◌then◌else◌, ◌==◌,
  true, Bytes, codes, length, All, IsAllocator, ok, fault, past_buffer,
}
use multithreaded_network_jo.Commands.{JobTriplate, issue_job, exit, get_client_command_mode}
use multithreaded_network_jo.Commands.Modes.{mode_iff_Keyword}
use multithreaded_network_jo.Tools.WaitingBufferQueue.Search.{queue_of}
use multithreaded_network_jo.Server.State.{
  cond_controller, ThreadId, Packet, size, text, Server, c_str,
}
use multithreaded_network_jo.Server.Messages.{submit_message, drain_message, exit_message}
use multithreaded_network_jo.Server.Controller.{Controller}
use multithreaded_network_jo.Server.Handlers.{solo, Returns, Returns-map, Free, message, begins}
use multithreaded_network_jo.Server.Handlers.Exit.{
  everybody, exit_messages, Terminates, exit_ends_server,
}
use multithreaded_network_jo.Client.Process.{
  Reads, join_words, send_command, receive_server_response,
}
use multithreaded_network_jo.Client.Process.Typed.{sent_text, first_typed}
use multithreaded_network_jo.Conversation.{
  packets_for, packets_for-append, packets_for-message, packets_for-other, Prints,
  two_messages_printed, submit-not_cancelled,
}
use multithreaded_network_jo.Conversation.Short.{ArrivesWhole, short_answer_printed}

-- No job among these has the socket for its answers.
abbrev pub Others : ℕ → List JobTriplate → Type 0
Others socket = All (λ x. x.socket_id ≢ socket)

pub packets_for-Others :
    (socket : ℕ) (xs : List JobTriplate)
    → Others socket xs
    → packets_for socket (exit_messages xs) ≡ []
packets_for-Others socket [] h = refl
packets_for-Others socket (x ∷ xs) h =
    packets_for-append socket (message x.socket_id drain_message) (exit_messages xs)
    ∙ rw (packets_for-other socket x.socket_id drain_message h.0, packets_for-Others socket xs h.1)
        refl

-- The only job of its client among those that wait: its client gets one notice.
packets_for-waiting :
    (ys zs : List JobTriplate) (j : JobTriplate)
    → Others j.socket_id ys
    → Others j.socket_id zs
    → packets_for j.socket_id (exit_messages (ys ++ j ∷ zs))
      ≡ size (length (c_str drain_message)) ∷ text (c_str drain_message) ∷ []
packets_for-waiting [] zs j none_before none_after =
    packets_for-append j.socket_id (message j.socket_id drain_message) (exit_messages zs)
    ∙ rw
        (
          packets_for-message j.socket_id drain_message,
          packets_for-Others j.socket_id zs none_after,
        )
        refl
packets_for-waiting (y ∷ ys) zs j none_before none_after =
    packets_for-append j.socket_id (message y.socket_id drain_message)
      (exit_messages (ys ++ j ∷ zs))
    ∙ rw (packets_for-other j.socket_id y.socket_id drain_message none_before.0)
        (packets_for-waiting ys zs j none_before.1 none_after)

Others-middle :
    (socket : ℕ) (ys zs : List JobTriplate) (j : JobTriplate)
    → Others socket (ys ++ j ∷ zs)
    → socket ≢ j.socket_id
Others-middle socket [] zs j h = λ same. h.0 (sym same)
Others-middle socket (y ∷ ys) zs j h = Others-middle socket ys zs j h.1

pub packets_of_exit :
    (k socket : ℕ) (before sent : List (ℕ × Packet)) (xs : List JobTriplate)
    → sent ≡ before ++ (exit_messages xs ++ message socket exit_message)
    → packets_for k sent
      ≡ packets_for k before
        ++ (packets_for k (exit_messages xs) ++ packets_for k (message socket exit_message))
packets_of_exit k socket before sent xs e = rw (
  e,
  packets_for-append k before (exit_messages xs ++ message socket exit_message),
  packets_for-append k (exit_messages xs) (message socket exit_message),
)

exit_sent : (send_command (join_words (codes "exit" ∷ []))).1 ≡ join_words (codes "exit" ∷ [])
exit_sent = sent_text (codes "exit" ∷ []) (ground arith)

mode_of_exit : get_client_command_mode (join_words (codes "exit" ∷ [])) ≡ exit
mode_of_exit = (mode_iff_Keyword _ exit).1 (first_typed (codes "exit") [] (ground arith))

-- What the client that typed `exit` makes of the packets that it has been sent: `last` is the byte
-- behind the message in its array.
abbrev pub PrintsExit : (ℕ → Bytes) → ℕ → ℕ → Server × Controller → Type 0
PrintsExit fresh socket last r =
    (reads : Reads)
    → ArrivesWhole (packets_for socket r.0.sent) reads.short_answer
    → receive_server_response fresh (join_words (codes "exit" ∷ [])) reads
      ≡ (if last == 0 then ok (exit_message ∷ []) else fault past_buffer)

-- `exit` typed at a client, while fewer than 2^32 jobs wait in the buffer, among them a job that is
-- the only one of its client there, and whose client has been told only that it is submitted. The
-- controller runs to its end, with no other thread moving, no mutex taken and no job running, and
-- the server is set to stop. The client that typed it, which has been sent nothing before and none
-- of whose jobs wait, prints that the server is terminated, if the byte behind the message in its
-- array happens to be zero, and runs past the array otherwise; the client of the job prints that it
-- is submitted, and then that the server is terminated before its execution.
pub exit_printed :
    (fresh : ℕ → Bytes) (t : ThreadId) (s : Server) (n socket last : ℕ) (ys zs : List JobTriplate)
    (j : JobTriplate) (command before : Bytes)
    → IsAllocator fresh
    → Free s
    → length (ys ++ j ∷ zs) < 2 ^ 32
    → s.running_jobs ≡ 0
    → Others socket (ys ++ j ∷ zs)
    → Others j.socket_id ys
    → Others j.socket_id zs
    → packets_for socket s.sent ≡ []
    → packets_for j.socket_id s.sent
      ≡ packets_for j.socket_id (message j.socket_id (submit_message j))
    → get_client_command_mode command ≡ issue_job
    → fresh (length exit_message + 1) ≡ before ++ last ∷ []
    → length before ≡ length exit_message
    → let typed = (send_command (join_words (codes "exit" ∷ []))).1 in
      Returns
        (solo
          (14 + 4 * length (ys ++ j ∷ zs))
          t
          (record s { queue = queue_of n (ys ++ j ∷ zs) })
          (begins socket typed (get_client_command_mode typed)))
        (λ r.
          (r.0.should_stop ≡ true)
          × PrintsExit fresh socket last r
          × Prints fresh command j.socket_id
              (c_str (submit_message j) ∷ c_str drain_message ∷ [])
              r)
exit_printed fresh t s n socket last ys zs j command before alloc free h idle foreign none_before
      none_after silent told mode e len =
    let xs : List JobTriplate = ys ++ j ∷ zs in
    let lines : List Bytes = c_str (submit_message j) ∷ c_str drain_message ∷ [] in
    rw (exit_sent, mode_of_exit)
      (Returns-map
        (Terminates n (everybody (s.cond cond_controller))
          (s.sent ++ (exit_messages xs ++ message socket exit_message)))
        (λ r.
          (r.0.should_stop ≡ true)
          × PrintsExit fresh socket last r
          × Prints fresh command j.socket_id lines r)
        _
        (λ r q. (
          q.stopped,
          λ reads arrives.
              short_answer_printed fresh (join_words (codes "exit" ∷ [])) exit_message before last
                socket reads (rw mode_of_exit tt) (ground arith) e len
                (rw
                  (
                    packets_of_exit socket socket s.sent r.0.sent xs q.told,
                    silent,
                    packets_for-Others socket xs foreign,
                  )
                  at arrives),
          λ reads arrives.
              two_messages_printed fresh command (submit_message j) drain_message reads alloc mode
                (submit-not_cancelled j)
                (rw
                  (
                    packets_of_exit j.socket_id socket s.sent r.0.sent xs q.told,
                    told,
                    packets_for-message j.socket_id (submit_message j),
                    packets_for-waiting ys zs j none_before none_after,
                    packets_for-other j.socket_id socket exit_message
                        (Others-middle socket ys zs j foreign),
                  )
                  at arrives),
        ))
        (exit_ends_server t s n socket xs (join_words (codes "exit" ∷ [])) free h idle))
