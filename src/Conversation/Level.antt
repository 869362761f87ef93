-- ===== src/Conversation/Level.antt =====
-- `setConcurrency` from the words on the client's command line to the line that it prints.
use multithreaded_network_jo.Prelude.{
  ℕ, ◌+◌, ◌*◌, ◌-◌, ◌<◌, ◌^◌, ◌≡◌, arith, [], ◌∷◌, ◌++◌, if◌then◌else◌, ◌==◌, Bytes, codes, length,
  to_string, to_string-All, IsDigit, All, Lacks, ok, fault, past_buffer,
}
use multithreaded_network_jo.Commands.{set_concurrency, get_client_command_mode}
use multithreaded_network_jo.Commands.Modes.{mode_iff_Keyword}
use multithreaded_network_jo.Tools.StringEditor.{remove_first_word, space}
use multithreaded_network_jo.Server.State.{ThreadId, Server}
use multithreaded_network_jo.Server.Messages.{level_message}
use multithreaded_network_jo.Server.Controller.{Controller}
use multithreaded_network_jo.Server.Handlers.{solo, Returns, Returns-map, Free, message, begins}
use multithreaded_network_jo.Server.Handlers.Concurrency.{Leveled, set_concurrency_sets}
use multithreaded_network_jo.Client.Process.{
  Reads, join_words, send_command, receive_server_response,
}
use multithreaded_network_jo.Client.Process.Typed.{sent_text, first_typed, rest_typed}
use multithreaded_network_jo.Conversation.{packets_for, packets_for-append}
use multithreaded_network_jo.Conversation.Short.{ArrivesWhole, short_answer_printed}

digits_without : (c : ℕ) (s : Bytes) → c < b'0' → All IsDigit s → Lacks c s
digits_without c [] low h = tt
digits_without c (d ∷ s) low h = (omega arith, digits_without c s low h.1)

abbrev typed_level : ℕ → Bytes
typed_level n = join_words (codes "setConcurrency" ∷ to_string n ∷ [])

keyword_without_space : Lacks space (codes "setConcurrency")
keyword_without_space = ground arith

level_sent : (n : ℕ) → (send_command (typed_level n)).1 ≡ typed_level n
level_sent n =
    sent_text (codes "setConcurrency" ∷ to_string n ∷ [])
      (ground arith, (digits_without 0 (to_string n) (omega arith) (to_string-All n), tt))

mode_of_level : (n : ℕ) → get_client_command_mode (typed_level n) ≡ set_concurrency
mode_of_level n =
    (mode_iff_Keyword _ set_concurrency).1
      (first_typed (codes "setConcurrency") (to_string n ∷ []) keyword_without_space)

level_read : (n : ℕ) → remove_first_word (typed_level n) space ≡ to_string n
unfolding join_words
level_read n = rest_typed (codes "setConcurrency") (to_string n ∷ []) keyword_without_space

Lacks-level_message : (n : ℕ) → Lacks 0 (level_message (to_string n))
Lacks-level_message n =
    ground (arith, digits_without 0 (to_string n) (omega arith) (to_string-All n))

-- The concurrency of the server, and what the client makes of the packets that it has been sent:
-- `last` is the byte behind the message in its array.
abbrev pub PrintsLevel : (ℕ → Bytes) → ℕ → ℕ → ℕ → Server × Controller → Type 0
PrintsLevel fresh socket n last r =
    (r.0.concurrency ≡ n)
    × ((reads : Reads)
        → ArrivesWhole (packets_for socket r.0.sent) reads.short_answer
        → receive_server_response fresh (join_words (codes "setConcurrency" ∷ to_string n ∷ []))
            reads
          ≡ (if last == 0 then ok (level_message (to_string n) ∷ []) else fault past_buffer))

-- `setConcurrency` and the decimal print of a non-negative `int` typed at a client that has been
-- sent nothing yet, whose controller runs to its end with no other thread moving, no mutex taken
-- and fewer than 2^31 busy workers: the server takes the command for what it is, and sets its
-- concurrency to that number. The client, whose two reads return the message whole, prints the line
-- that says so if the byte behind it in its array happens to be zero, and runs past the array
-- otherwise.
pub level_printed :
    (fresh : ℕ → Bytes) (t : ThreadId) (s : Server) (socket n last : ℕ) (before : Bytes)
    → Free s
    → s.busy_workers < 2 ^ 31
    → n < 2 ^ 31
    → packets_for socket s.sent ≡ []
    → fresh (length (level_message (to_string n)) + 1) ≡ before ++ last ∷ []
    → length before ≡ length (level_message (to_string n))
    → let typed = join_words (codes "setConcurrency" ∷ to_string n ∷ []) in
      let command = (send_command typed).1 in
      Returns
        (solo
          (7 + 4 * (n - s.busy_workers))
          t
          s
          (begins socket command (get_client_command_mode command)))
        (PrintsLevel fresh socket n last)
level_printed fresh t s socket n last before free small fits silent e len =
    rw (level_sent n, mode_of_level n)
      (Returns-map (Leveled socket n s) (PrintsLevel fresh socket n last) _
        (λ r q. (
          q.set,
          λ reads arrives.
              short_answer_printed fresh (typed_level n) (level_message (to_string n)) before last
                socket reads (rw (mode_of_level n) tt) (Lacks-level_message n) e len
                (rw
                  (
                    q.told,
                    packets_for-append socket s.sent (message socket (level_message (to_string n))),
                    silent,
                  )
                  at arrives),
        ))
        (set_concurrency_sets t s socket n (typed_level n) free small fits (level_read n)))
