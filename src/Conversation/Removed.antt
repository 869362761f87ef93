-- ===== src/Conversation/Removed.antt =====
-- `stop` and the two clients that it answers: the one that typed it, and the one whose job it
-- removes.
use multithreaded_network_jo.Prelude.{
  ℕ, ◌+◌, ◌<◌, ◌^◌, ◌≡◌, ◌≢◌, ◌∙◌, sym, arith, List, [], ◌∷◌, ◌++◌, some, if◌then◌else◌, ◌==◌,
  Bytes, codes, length, append-nil, Lacks, IsAllocator, ok, fault, past_buffer,
}
use multithreaded_network_jo.Commands.{JobTriplate, issue_job, stop, get_client_command_mode}
use multithreaded_network_jo.Commands.Modes.{mode_iff_Keyword}
use multithreaded_network_jo.Tools.StringEditor.{remove_first_word, space}
use multithreaded_network_jo.Tools.WaitingBufferQueue.Fifo.{extract}
use multithreaded_network_jo.Tools.WaitingBufferQueue.Search.{queue_of}
use multithreaded_network_jo.Server.State.{ThreadId, Packet, size, text, Server, c_str}
use multithreaded_network_jo.Server.Messages.{submit_message, stop_message, removed_message}
use multithreaded_network_jo.Server.Controller.{Controller}
use multithreaded_network_jo.Server.Handlers.{solo, Returns, Returns-map, Free, message, begins}
use multithreaded_network_jo.Server.Handlers.Stop.{stop_messages, StopServed, stop_removes}
use multithreaded_network_jo.Client.Process.{
  Reads, join_words, send_command, receive_server_response,
}
use multithreaded_network_jo.Client.Process.Typed.{sent_text, first_typed, rest_typed, Lacks-append}
use multithreaded_network_jo.Conversation.{
  packets_for, packets_for-append, packets_for-other, packets_for-message, Prints,
  two_messages_printed, submit-not_cancelled,
}
use multithreaded_network_jo.Conversation.Short.{ArrivesWhole, short_answer_printed}

abbrev typed_stop : Bytes → Bytes
typed_stop id = join_words (codes "stop" ∷ id ∷ [])

keyword_without_space : Lacks space (codes "stop")
keyword_without_space = ground arith

stop_sent : (id : Bytes) → Lacks 0 id → (send_command (typed_stop id)).1 ≡ typed_stop id
stop_sent id lacks = sent_text (codes "stop" ∷ id ∷ []) (ground arith, (lacks, tt))

mode_of_stop : (id : Bytes) → get_client_command_mode (typed_stop id) ≡ stop
mode_of_stop id =
    (mode_iff_Keyword _ stop).1 (first_typed (codes "stop") (id ∷ []) keyword_without_space)

stop_read : (id : Bytes) → remove_first_word (typed_stop id) space ≡ id
unfolding join_words
stop_read id = rest_typed (codes "stop") (id ∷ []) keyword_without_space

Lacks-stop_message :
    (id : Bytes) (j : JobTriplate) → Lacks 0 id → Lacks 0 (stop_message id (some j))
Lacks-stop_message id j lacks =
    ground (arith, Lacks-append 0 id (codes " REMOVED") lacks (ground arith))

-- What the client that typed `stop` makes of the packets that it has been sent: `last` is the byte
-- behind the message in its array.
abbrev pub PrintsStop : (ℕ → Bytes) → ℕ → Bytes → Bytes → ℕ → Server × Controller → Type 0
PrintsStop fresh socket id m last r =
    (reads : Reads)
    → ArrivesWhole (packets_for socket r.0.sent) reads.short_answer
    → receive_server_response fresh (join_words (codes "stop" ∷ id ∷ [])) reads
      ≡ (if last == 0 then ok (m ∷ []) else fault past_buffer)

-- The packets that a handled `stop` adds for one of the two clients, if they are not the same.
packets_of_stop :
    (k socket : ℕ) (before sent : List (ℕ × Packet)) (id : Bytes) (j : JobTriplate)
    → sent ≡ before ++ stop_messages socket id (some j)
    → packets_for k sent
      ≡ packets_for k before
        ++ (packets_for k (message socket (stop_message id (some j)))
            ++ packets_for k (message j.socket_id removed_message))
packets_of_stop k socket before sent id j e = rw (
  e,
  packets_for-append k before (stop_messages socket id (some j)),
  packets_for-append k (message socket (stop_message id (some j)))
      (message j.socket_id removed_message),
)

packets_of_asker :
    (socket : ℕ) (before sent : List (ℕ × Packet)) (id : Bytes) (j : JobTriplate)
    → j.socket_id ≢ socket
    → packets_for socket before ≡ []
    → sent ≡ before ++ stop_messages socket id (some j)
    → packets_for socket sent ≡ packets_for socket (message socket (stop_message id (some j)))
packets_of_asker socket before sent id j other silent e =
    packets_of_stop socket socket before sent id j e
    ∙ rw (silent, packets_for-other socket j.socket_id removed_message other, append-nil)

packets_of_owner :
    (socket : ℕ) (before sent : List (ℕ × Packet)) (id : Bytes) (j : JobTriplate)
    → j.socket_id ≢ socket
    → packets_for j.socket_id before
      ≡ packets_for j.socket_id (message j.socket_id (submit_message j))
    → sent ≡ before ++ stop_messages socket id (some j)
    → packets_for j.socket_id sent
      ≡ size (length (c_str (submit_message j)))
        ∷ text (c_str (submit_message j))
        ∷ size (length (c_str removed_message))
        ∷ text (c_str removed_message)
        ∷ []
packets_of_owner socket before sent id j other told e =
    packets_of_stop j.socket_id socket before sent id j e
    ∙ rw (
      told,
      packets_for-message j.socket_id (submit_message j),
      packets_for-other j.socket_id socket (stop_message id (some j)) (λ same. other (sym same)),
      packets_for-message j.socket_id removed_message,
    )

-- `stop` and an identifier without a zero byte typed at a client, while fewer than 2^32 jobs wait
-- in the buffer, and the client of the first one with that identifier, another one, has been told
-- only that it is submitted. The controller runs to its end, with no other thread moving and no
-- mutex taken. The client that typed it, which has been sent nothing before, prints that the job is
-- removed, if the byte behind the message in its array happens to be zero, and runs past the array
-- otherwise; the client of the job prints that it is submitted, and then that it has been removed
-- before execution.
pub removed_job_printed :
    (fresh : ℕ → Bytes) (t : ThreadId) (s : Server) (n socket last : ℕ) (xs : List JobTriplate)
    (j : JobTriplate) (id command before : Bytes)
    → IsAllocator fresh
    → Free s
    → length xs < 2 ^ 32
    → Lacks 0 id
    → (extract id xs).0 ≡ some j
    → j.socket_id ≢ socket
    → packets_for socket s.sent ≡ []
    → packets_for j.socket_id s.sent
      ≡ packets_for j.socket_id (message j.socket_id (submit_message j))
    → get_client_command_mode command ≡ issue_job
    → let m = stop_message id (some j) in
      fresh (length m + 1) ≡ before ++ last ∷ []
      → length before ≡ length m
      → let typed = (send_command (join_words (codes "stop" ∷ id ∷ []))).1 in
        Returns
          (solo 11 t
            (record s { queue = queue_of n xs })
            (begins socket typed (get_client_command_mode typed)))
          (λ r.
            PrintsStop fresh socket id m last r
            × Prints fresh command j.socket_id
                (c_str (submit_message j) ∷ c_str removed_message ∷ [])
                r)
removed_job_printed fresh t s n socket last xs j id command before alloc free h lacks found other
      silent told mode e len =
    let m : Bytes = stop_message id (some j) in
    let lines : List Bytes = c_str (submit_message j) ∷ c_str removed_message ∷ [] in
    let moved = stop_removes t s n socket xs (typed_stop id) free h in
    rw (stop_sent id lacks, mode_of_stop id)
      (Returns-map (StopServed n (extract id xs).1 (stop_messages socket id (some j)) s)
        (λ r. PrintsStop fresh socket id m last r × Prints fresh command j.socket_id lines r) _
        (λ r q. (
          λ reads arrives.
              short_answer_printed fresh (typed_stop id) m before last socket reads
                (rw (mode_of_stop id) tt) (Lacks-stop_message id j lacks) e len
                (rw (packets_of_asker socket s.sent r.0.sent id j other silent q.told) at arrives),
          λ reads arrives.
              two_messages_printed fresh command (submit_message j) removed_message reads alloc mode
                (submit-not_cancelled j)
                (rw (packets_of_owner socket s.sent r.0.sent id j other told q.told) at arrives),
        ))
        (rw (stop_read id, found) at moved))
