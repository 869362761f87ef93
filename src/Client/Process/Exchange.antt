-- ===== src/Client/Process/Exchange.antt =====
-- What a run of the client in src/Client/client.cpp sends and prints, and what of the words on its
-- command line reaches the program of a job.
use multithreaded_network_jo.Prelude.{
  IsAllocator, ℕ, ◌≡◌, ◌≢◌, ◌⊎◌, refl, arith, inl, inr, none, some, List, [], ◌∷◌, false,
  if◌then◌else◌, Bytes, codes, length, same_text, map, All, Lacks, ok, Bool-cases,
}
use multithreaded_network_jo.Commands.{issue_job, get_client_command_mode}
use multithreaded_network_jo.Commands.Modes.{mode_iff_Keyword}
use multithreaded_network_jo.Tools.StringEditor.{remove_first_word, space}
use multithreaded_network_jo.Server.Jobs.{get_job_arguments}
use multithreaded_network_jo.Server.Jobs.Passed.{passed, spaced, passed-spaced}
use multithreaded_network_jo.Client.Receivers.{size_read, chunk}
use multithreaded_network_jo.Client.Receivers.Delivered.{joined, issue_response_received}
use multithreaded_network_jo.Client.Process.Typed.{sent_text, first_typed, rest_typed}
use multithreaded_network_jo.Client.Process.{
  Reads, Network, Run, join_words, send_command, cancellation, issue_lines, receive_server_response,
  went_out, unresolved,
}

join_words-spaced : (words : List Bytes) → join_words words ≡ spaced words
unfolding join_words
join_words-spaced [] = refl
join_words-spaced (w ∷ []) = refl
join_words-spaced (w ∷ v ∷ ws) = rw (join_words-spaced (v ∷ ws))

issue_job_without_space : Lacks space (codes "issueJob")
issue_job_without_space = ground arith

issue_job_sent :
    (words : List Bytes)
    → All (Lacks 0) words
    → (send_command (join_words (codes "issueJob" ∷ words))).1
      ≡ join_words (codes "issueJob" ∷ words)
issue_job_sent words nul = sent_text (codes "issueJob" ∷ words) (ground arith, nul)

mode_of_issue :
    (words : List Bytes)
    → get_client_command_mode (join_words (codes "issueJob" ∷ words)) ≡ issue_job
mode_of_issue words =
    (mode_iff_Keyword _ issue_job).1 (first_typed (codes "issueJob") words issue_job_without_space)

-- The words behind `issueJob` on the client's command line, none of them empty or with a space or a
-- zero byte: the server takes the command that it is sent for `issueJob`, and the program of the job
-- is passed exactly these words.
pub typed_words_passed :
    (words : List Bytes)
    → All (λ w. (w ≢ []) × Lacks space w) words
    → All (Lacks 0) words
    → let command = (send_command (join_words (codes "issueJob" ∷ words))).1 in
      (get_client_command_mode command ≡ issue_job)
      × (passed (get_job_arguments (remove_first_word command space)) ≡ words)
typed_words_passed words h nul = (
  rw (issue_job_sent words nul) (mode_of_issue words),
  rw
      (
        issue_job_sent words nul,
        rest_typed (codes "issueJob") words issue_job_without_space,
        join_words-spaced words,
      )
      (passed-spaced words h),
)

issue_lines-received :
    (fresh : ℕ → Bytes) (reads : Reads) (first second : List Bytes)
    → IsAllocator fresh
    → reads.first_answer ≡ (size_read (length (joined first)), map chunk first)
    → reads.second_answer ≡ (size_read (length (joined second)), map chunk second)
    → Lacks 0 (joined first)
    → Lacks 0 (joined second)
    → issue_lines fresh reads
      ≡ ok (
          if same_text (joined first) cancellation
          then joined first ∷ []
          else joined first ∷ joined second ∷ [])
unfolding issue_lines
issue_lines-received fresh reads first second alloc e1 e2 l1 l2 =
    rw
      (
        e1,
        issue_response_received fresh first alloc l1,
        e2,
        issue_response_received fresh second alloc l2,
      )
      (elim (Bool-cases (same_text (joined first) cancellation)) [ inl h ↦ rw h | inr h ↦ rw h ])

-- Two answers to `issueJob` without zero bytes that would each arrive in full, in whatever pieces:
-- the client prints the first, and then the second exactly if the first is not the cancellation.
pub issue_job_prints :
    (fresh : ℕ → Bytes) (command : Bytes) (reads : Reads) (first second : List Bytes)
    → IsAllocator fresh
    → get_client_command_mode command ≡ issue_job
    → reads.first_answer ≡ (size_read (length (joined first)), map chunk first)
    → reads.second_answer ≡ (size_read (length (joined second)), map chunk second)
    → Lacks 0 (joined first)
    → Lacks 0 (joined second)
    → receive_server_response fresh command reads
      ≡ ok (
          if same_text (joined first) cancellation
          then joined first ∷ []
          else joined first ∷ joined second ∷ [])
unfolding receive_server_response
issue_job_prints fresh command reads first second alloc mode e1 e2 l1 l2 =
    rw (mode, receive_server_response)
      (issue_lines-received fresh reads first second alloc e1 e2 l1 l2)

-- The cancellation as the first answer, in whatever pieces: nothing else is read or printed.
pub cancelled_prints :
    (fresh : ℕ → Bytes) (command : Bytes) (reads : Reads) (pieces : List Bytes)
    → IsAllocator fresh
    → get_client_command_mode command ≡ issue_job
    → joined pieces ≡ cancellation
    → reads.first_answer ≡ (size_read (length cancellation), map chunk pieces)
    → receive_server_response fresh command reads ≡ ok (cancellation ∷ [])
unfolding receive_server_response issue_lines same_text
cancelled_prints fresh command reads pieces alloc mode whole e =
    let read = issue_response_received fresh pieces alloc (rw whole (ground arith)) in
    rw (mode, receive_server_response, e, rw whole at read) refl

-- The ends of a run: it has sent its command and printed what it has heard, or it has given up with a
-- code and some lines, and has sent nothing.
abbrev pub Talked : (ℕ → Bytes) → Network → Bytes → Run → Type 0
Talked fresh network command r =
    (r.exit_code ≡ 0)
    × (r.sent ≡ some (went_out network (send_command command)))
    × (receive_server_response fresh command network.reads ≡ ok r.printed)

abbrev pub GaveUp : ℕ → List Bytes → Run → Type 0
GaveUp code lines r = (r.exit_code ≡ code) × (r.sent ≡ none) × (r.printed ≡ lines)

-- What a run can come to when its arguments are taken.
abbrev pub Started : (ℕ → Bytes) → Network → Bytes → ℕ → Bytes → Run → Type 0
Started fresh network server_name port command r =
    Talked fresh network command r
    ⊎ ((network.resolve server_name ≡ none) × GaveUp 2 (unresolved server_name ∷ []) r)
    ⊎ ((network.socket_opens ≡ false) × GaveUp 3 [] r)
    ⊎ (((address : Bytes) × (network.connects address port ≡ false)) × GaveUp 4 [] r)
