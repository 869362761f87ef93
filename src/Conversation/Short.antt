-- ===== src/Conversation/Short.antt =====
-- The answers that one of the three short receivers of src/Client/clientReceivers.cpp reads.
use multithreaded_network_jo.Prelude.{
  ℕ, ◌+◌, ◌≡◌, arith, List, [], ◌∷◌, ◌++◌, if◌then◌else◌, ◌==◌, Bytes, length, Lacks, ok, fault,
  past_buffer, ◌>>=◌,
}
use multithreaded_network_jo.Commands.{CcMode, set_concurrency, stop, exit, get_client_command_mode}
use multithreaded_network_jo.Server.State.{Packet, size, text}
use multithreaded_network_jo.Server.Handlers.{message}
use multithreaded_network_jo.Client.Receivers.{Chunk, chunk, receive_short_response}
use multithreaded_network_jo.Client.Receivers.Delivered.{short_response_received}
use multithreaded_network_jo.Client.Process.{Reads, receive_server_response}
use multithreaded_network_jo.Client.Process.Typed.{c_str-Lacks}
use multithreaded_network_jo.Conversation.{packets_for, packets_for-message}

-- The packets are one message, and the two reads of a short answer give it in full.
abbrev pub ArrivesWhole : List Packet → ℕ × Chunk → Type 0
ArrivesWhole (size n ∷ text t ∷ []) answer = answer ≡ (n, chunk t)
ArrivesWhole _ _ = ⊥

-- The commands whose answer one of the three short receivers reads.
abbrev pub HasShortAnswer : CcMode → Type 0
HasShortAnswer set_concurrency = Unit
HasShortAnswer stop = Unit
HasShortAnswer exit = Unit
HasShortAnswer _ = ⊥

by_short_receiver :
    (fresh : ℕ → Bytes) (command : Bytes) (reads : Reads)
    → HasShortAnswer (get_client_command_mode command)
    → receive_server_response fresh command reads ≡ (
        receive_short_response fresh reads.short_answer.0 reads.short_answer.1 >>= λ m. ok (m ∷ []))
unfolding receive_server_response
by_short_receiver fresh command reads short = ground arith

-- A whole message is the line that is printed, if the array holds a zero byte behind it.
pub short_answer_printed :
    (fresh : ℕ → Bytes) (command m before : Bytes) (last socket : ℕ) (reads : Reads)
    → HasShortAnswer (get_client_command_mode command)
    → Lacks 0 m
    → fresh (length m + 1) ≡ before ++ last ∷ []
    → length before ≡ length m
    → ArrivesWhole (packets_for socket (message socket m)) reads.short_answer
    → receive_server_response fresh command reads
      ≡ (if last == 0 then ok (m ∷ []) else fault past_buffer)
short_answer_printed fresh command m before last socket reads short lacks e len arrives =
    let told : reads.short_answer ≡ (length m, chunk m) =
      rw (packets_for-message socket m, c_str-Lacks m lacks) at arrives in
    rw
      (
        by_short_receiver fresh command reads short,
        told,
        short_response_received fresh m before last lacks e len,
      )
      (ground arith)
