-- ===== src/Conversation/Listing.antt =====
-- `poll` from the client's command line to the text that it prints.
use multithreaded_network_jo.Prelude.{
  ℕ, ◌+◌, ◌*◌, ◌<◌, ◌^◌, ◌≡◌, arith, List, [], ◌∷◌, ◌++◌, Bytes, codes, length, Lacks, IsAllocator,
  Outcome, ok, fault, past_buffer, ◌>>=◌, refl,
}
use multithreaded_network_jo.Commands.{JobTriplate, poll, get_client_command_mode}
use multithreaded_network_jo.Commands.Modes.{mode_iff_Keyword}
use multithreaded_network_jo.Tools.WaitingBufferQueue.Search.{queue_of}
use multithreaded_network_jo.Server.State.{ThreadId, Packet, size, text, Server, c_str}
use multithreaded_network_jo.Server.Messages.{poll_message}
use multithreaded_network_jo.Server.Controller.{Controller}
use multithreaded_network_jo.Server.Handlers.{solo, Returns, Returns-map, Free, message, begins}
use multithreaded_network_jo.Server.Handlers.Poll.{job_messages, Listed, poll_lists}
use multithreaded_network_jo.Client.Receivers.{Chunk, chunk, receive_poll_response}
use multithreaded_network_jo.Client.Receivers.Delivered.{
  poll_response_empty, poll_response_runs_past,
}
use multithreaded_network_jo.Client.Process.{
  Reads, join_words, send_command, receive_server_response,
}
use multithreaded_network_jo.Client.Process.Typed.{sent_text, first_typed}
use multithreaded_network_jo.Conversation.{
  packets_for, packets_for-append, packets_for-message, Lacks-c_str,
}

-- The packets are the number of the items and then the items, and the reads give each of them in
-- full.
abbrev pub ArrivesItems : List Packet → List (ℕ × Chunk) → Type 0
ArrivesItems [] [] = Unit
ArrivesItems (size n ∷ text t ∷ packets) (item ∷ items) =
    (item ≡ (n, chunk t)) × ArrivesItems packets items
ArrivesItems _ _ = ⊥

abbrev pub ArrivesCounted : List Packet → List (ℕ × Chunk) → Type 0
ArrivesCounted (size n ∷ packets) items = (n ≡ length items) × ArrivesItems packets items
ArrivesCounted _ _ = ⊥

-- What the client prints of a list of jobs.
abbrev pub poll_lines : List JobTriplate → Outcome (List Bytes)
poll_lines [] = ok ([] ∷ [])
poll_lines (j ∷ js) = fault past_buffer

-- The client does not get behind the first item of its list.
first_item :
    (fresh : ℕ → Bytes) (m : Bytes) (packets : List Packet) (items : List (ℕ × Chunk))
    → IsAllocator fresh
    → Lacks 0 m
    → ArrivesItems (size (length m) ∷ text m ∷ packets) items
    → receive_poll_response fresh items ≡ fault past_buffer
first_item fresh m packets [] alloc lacks arrives = elim arrives [ ]
first_item fresh m packets (item ∷ items) alloc lacks (e, later) =
    rw e (poll_response_runs_past fresh m items alloc lacks)

items_printed :
    (fresh : ℕ → Bytes) (socket : ℕ) (xs : List JobTriplate) (items : List (ℕ × Chunk))
    → IsAllocator fresh
    → ArrivesItems (packets_for socket (job_messages socket xs)) items
    → (receive_poll_response fresh items >>= λ s. ok (s ∷ [])) ≡ poll_lines xs
items_printed fresh socket [] [] alloc arrives = rw (poll_response_empty fresh) refl
items_printed fresh socket [] (item ∷ items) alloc arrives = elim arrives [ ]
items_printed fresh socket (j ∷ js) items alloc arrives =
    let arrived =
      rw
        (
          packets_for-append socket (message socket (poll_message j)) (job_messages socket js),
          packets_for-message socket (poll_message j),
        )
        at arrives in
    rw
      (first_item fresh (c_str (poll_message j)) _ items alloc (Lacks-c_str (poll_message j))
        arrived)
      refl

poll_sent : (send_command (join_words (codes "poll" ∷ []))).1 ≡ join_words (codes "poll" ∷ [])
poll_sent = sent_text (codes "poll" ∷ []) (ground arith)

mode_of_poll : get_client_command_mode (join_words (codes "poll" ∷ [])) ≡ poll
mode_of_poll = (mode_iff_Keyword _ poll).1 (first_typed (codes "poll") [] (ground arith))

-- What the client that typed `poll` makes of the packets that it has been sent for the jobs `xs`.
abbrev pub PrintsPoll : (ℕ → Bytes) → ℕ → List JobTriplate → Server × Controller → Type 0
PrintsPoll fresh socket xs r =
    (reads : Reads)
    → ArrivesCounted (packets_for socket r.0.sent) reads.items
    → receive_server_response fresh (join_words (codes "poll" ∷ [])) reads ≡ poll_lines xs

packets_of_poll :
    (socket k : ℕ) (before sent later : List (ℕ × Packet))
    → packets_for socket before ≡ []
    → sent ≡ before ++ (socket, size k) ∷ later
    → packets_for socket sent ≡ size k ∷ packets_for socket later
packets_of_poll socket k before sent later silent e =
    rw (e, packets_for-append socket before ((socket, size k) ∷ later), silent) (ground arith)

-- `poll` typed at a client that has been sent nothing yet, while fewer than 2^32 jobs wait, whose
-- controller runs to its end with no other thread moving and no mutex taken: the client, whose
-- reads return the number of the jobs that wait and the message for each of them in full, prints an
-- empty text if no job waits, and runs past its array if any does, whatever its arrays held.
pub poll_printed :
    (fresh : ℕ → Bytes) (t : ThreadId) (s : Server) (n socket : ℕ) (xs : List JobTriplate)
    → IsAllocator fresh
    → Free s
    → length xs < 2 ^ 32
    → packets_for socket s.sent ≡ []
    → let command = (send_command (join_words (codes "poll" ∷ []))).1 in
      Returns
        (solo
          (5 + 2 * length xs)
          t
          (record s { queue = queue_of n xs })
          (begins socket command (get_client_command_mode command)))
        (PrintsPoll fresh socket xs)
unfolding receive_server_response
poll_printed fresh t s n socket xs alloc free h silent =
    rw (poll_sent, mode_of_poll)
      (Returns-map (Listed (s.sent ++ (socket, size (length xs)) ∷ job_messages socket xs) xs n)
        (PrintsPoll fresh socket xs) _
        (λ r q reads arrives.
          let arrived =
            rw
              (packets_of_poll socket (length xs) s.sent r.0.sent (job_messages socket xs) silent
                q.2)
              at arrives in
          rw (mode_of_poll, receive_server_response)
            (items_printed fresh socket xs reads.items alloc arrived.1))
        (poll_lists t s n socket xs (join_words (codes "poll" ∷ [])) free h))
