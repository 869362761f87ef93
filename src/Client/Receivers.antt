-- ===== src/Client/Receivers.antt =====
-- src/Client/clientReceivers.cpp: how the client receives the answers of the server.
pub mod Delivered
use multithreaded_network_jo.Prelude.{
  write_at, c_string, ℕ, zero, suc, ◌+◌, ◌-◌, Option, none, some, List, [], ◌∷◌, ◌++◌, Bool, true,
  false, ◌==◌, ltb, if◌then◌else◌, Bytes, codes, take, drop, length, Outcome, ok, blocked, fault,
  past_buffer, ◌>>=◌,
}

-- `read` of a size: an error, fewer bytes than a size has, or a size.
pub data SizeRead : Type 0 where
  size_failed size_short : SizeRead
  size_read : ℕ → SizeRead

-- `read` of a text: an error, or some bytes, none of them at the end of the stream.
pub data Chunk : Type 0 where
  chunk_failed : Chunk
  chunk : Bytes → Chunk

-- The loop of `receiveIssueJobResponse`, on the answers that `read` gives one after the other: it
-- ends with true when enough bytes have come, and with false at an error.
unfoldable pub read_loop : List Chunk → ℕ → ℕ → Bytes → Outcome (Bool × Bytes)
read_loop [] total size memory = if ltb total size then blocked else ok (true, memory)
read_loop (chunk_failed ∷ chunks) total size memory =
    if ltb total size then ok (false, memory) else ok (true, memory)
read_loop (chunk bytes ∷ chunks) total size memory =
    let more = read_loop chunks (total + length bytes) size (write_at total bytes memory) in
    if ltb total size then more else ok (true, memory)

finish : ℕ → Bool × Bytes → Outcome (Option Bytes)
finish size (false, memory) = ok none
finish size (true, memory) = c_string (write_at size (0 ∷ []) memory) >>= λ s. ok (some s)

-- The answer false is `none`. `fresh n` is what an array of `n` new bytes holds.
unfoldable pub receive_issue_job_response :
    (ℕ → Bytes) → SizeRead → List Chunk → Outcome (Option Bytes)
unfolding finish
receive_issue_job_response fresh size_failed chunks = ok none
receive_issue_job_response fresh size_short chunks = ok none
receive_issue_job_response fresh (size_read size) chunks =
    read_loop chunks 0 size (fresh (size + 1)) >>= finish size

-- One read of the size and one of the text, whatever these return, and no zero byte behind the
-- text. A read that fails leaves the array as it was; the size is one that has been read in full.
unfoldable pub receive_short_response : (ℕ → Bytes) → ℕ → Chunk → Outcome Bytes
receive_short_response fresh size chunk_failed = c_string (fresh (size + 1))
receive_short_response fresh size (chunk bytes) = c_string (write_at 0 bytes (fresh (size + 1)))

-- These three functions have one body.
abbrev pub receive_set_concurrency_response : (ℕ → Bytes) → ℕ → Chunk → Outcome Bytes
receive_set_concurrency_response = receive_short_response

abbrev pub receive_stop_response : (ℕ → Bytes) → ℕ → Chunk → Outcome Bytes
receive_stop_response = receive_short_response

abbrev pub receive_exit_response : (ℕ → Bytes) → ℕ → Chunk → Outcome Bytes
receive_exit_response = receive_short_response

-- The loop of `receivePollResponse` over the items that are left, each a size and a text.
poll_items : (ℕ → Bytes) → List (ℕ × Chunk) → Bytes → Outcome Bytes
poll_items fresh [] response = ok response
poll_items fresh ((size, answer) ∷ items) response =
    let memory : Bytes = elim answer [
      | chunk_failed ↦ fresh size
      | chunk bytes ↦ write_at 0 bytes (fresh size)
    ] in
    let separator : Bytes = elim items [ [] ↦ [] | _ ∷ _ ↦ codes "\n" ] in
    c_string memory >>= λ s. poll_items fresh items (response ++ (s ++ separator))

unfoldable pub receive_poll_response : (ℕ → Bytes) → List (ℕ × Chunk) → Outcome Bytes
unfolding poll_items
receive_poll_response fresh items = poll_items fresh items []
