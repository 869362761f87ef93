-- ===== src/Client/Process.antt =====
-- src/Client/client.cpp and src/App/jobCommander.cpp: a run of the client, from its arguments to its
-- exit code.
pub mod Typed
pub mod Exchange
use multithreaded_network_jo.Prelude.{
  ℕ, zero, suc, ◌+◌, Option, none, some, List, [], ◌∷◌, ◌++◌, Bool, true, false, if◌then◌else◌,
  Bytes, codes, length, take, same_text, Outcome, ok, fault, unset_text, null_text, ◌>>=◌,
}
use multithreaded_network_jo.Commands.{
  CcMode, issue_job, set_concurrency, stop, poll, exit, invalid, get_client_command_mode,
}
use multithreaded_network_jo.Tools.StringEditor.{space}
use multithreaded_network_jo.Server.State.{c_str}
use multithreaded_network_jo.Client.Receivers.{
  SizeRead, Chunk, receive_issue_job_response, receive_set_concurrency_response,
  receive_stop_response, receive_exit_response, receive_poll_response,
}

-- What the reads of the client's socket return: for the answers to `issueJob`, for the items of the
-- answer to `poll`, and for any other answer.
pub record Reads : Type 0 where
  pub first_answer : SizeRead × List Chunk
  pub second_answer : SizeRead × List Chunk
  pub items : List (ℕ × Chunk)
  pub short_answer : ℕ × Chunk

-- The calls of the system that the client depends on: the addresses of a name, a socket, a
-- connection to an address and a port, and the two calls of `send`: whether the size goes out, and how
-- many bytes of the text do.
pub record Network : Type 0 where
  pub resolve : Bytes → Option (List Bytes)
  pub socket_opens : Bool
  pub connects : Bytes → ℕ → Bool
  pub sends_size : Bool
  pub sends_bytes : ℕ
  pub reads : Reads

-- The loop over `argv`, from the third argument on.
unfoldable pub join_words : List Bytes → Bytes
join_words [] = []
join_words (word ∷ []) = word
join_words (word ∷ next ∷ words) = word ++ space ∷ join_words (next ∷ words)

-- The name, the port and the command; `none` where the program prints how it is used. `atoi` is the C
-- library's, with the conversion of its result to an unsigned number.
unfoldable pub get_command_line_arguments : (Bytes → ℕ) → List Bytes → Option (Bytes × ℕ × Bytes)
unfolding join_words
get_command_line_arguments atoi (program ∷ server_name ∷ port ∷ word ∷ words) =
    some (server_name, atoi port, join_words (word ∷ words))
get_command_line_arguments atoi _ = none

-- The loop copies every address into one array; with none, the array is never written.
unfoldable pub last_address : List Bytes → Outcome Bytes
last_address [] = fault unset_text
last_address (address ∷ []) = ok address
last_address (address ∷ next ∷ addresses) = last_address (next ∷ addresses)

unfoldable pub get_server_ip_address : Network → Bytes → Outcome (Option Bytes)
unfolding last_address
get_server_ip_address network server_name = elim (network.resolve server_name) [
  | none ↦ ok none
  | some addresses ↦ last_address addresses >>= λ a. ok (some a)
]

-- The size and the text that are sent.
unfoldable pub send_command : Bytes → ℕ × Bytes
unfolding c_str
send_command command = (length (c_str command), c_str command)

-- What goes out of a size and a text; the client does not look at the answers of `send`.
abbrev pub went_out : Network → ℕ × Bytes → Option ℕ × Bytes
went_out network (size, text) =
    (if network.sends_size then some size else none, take network.sends_bytes text)

-- A receiver that fails leaves the text as it was.
abbrev pub heard : Bytes → Option Bytes → Bytes
heard before none = before
heard before (some answer) = answer

abbrev pub cancellation : Bytes
cancellation = codes "JOB SUBMIT CANCELED BECAUSE OF SERVER TERMINATION"

issue_lines : (ℕ → Bytes) → Reads → Outcome (List Bytes)
unfolding receive_issue_job_response
issue_lines fresh reads =
    receive_issue_job_response fresh reads.first_answer.0 reads.first_answer.1 >>= λ r.
    let answer = heard [] r in
    let more =
      receive_issue_job_response fresh reads.second_answer.0 reads.second_answer.1 >>= λ r'.
      ok (answer ∷ heard answer r' ∷ []) in
    if same_text answer cancellation then ok (answer ∷ []) else more

-- The lines that the client prints.
unfoldable pub receive_server_response : (ℕ → Bytes) → Bytes → Reads → Outcome (List Bytes)
unfolding issue_lines
receive_server_response fresh command reads = elim (get_client_command_mode command) [
  | issue_job ↦ issue_lines fresh reads
  | poll ↦ receive_poll_response fresh reads.items >>= λ s. ok (s ∷ [])
  | stop ↦
      receive_stop_response fresh reads.short_answer.0 reads.short_answer.1 >>= λ s. ok (s ∷ [])
  | set_concurrency ↦
      receive_set_concurrency_response fresh reads.short_answer.0 reads.short_answer.1 >>= λ s.
      ok (s ∷ [])
  | exit ↦
      receive_exit_response fresh reads.short_answer.0 reads.short_answer.1 >>= λ s. ok (s ∷ [])
  | invalid ↦ ok []
]

-- The exit code, what went out, if the run came to that, and the lines on the standard output.
pub record Run : Type 0 where
  pub exit_code : ℕ
  pub sent : Option (Option ℕ × Bytes)
  pub printed : List Bytes

abbrev pub usage : Bytes → Bytes
usage program =
    codes "Usage: " ++ program ++ codes " [serverName] [portNum] [jobCommanderInputCommand]"

abbrev pub unresolved : Bytes → Bytes
unresolved server_name = codes "Could not resolved name: " ++ server_name

gives_up : ℕ → List Bytes → Outcome Run
gives_up code lines = ok (record { exit_code = code; sent = none; printed = lines })

-- `main` prints how it is used; with no arguments at all, not even its name, there is no text.
misused : List Bytes → Outcome Run
unfolding gives_up
misused [] = fault null_text
misused (program ∷ arguments) = gives_up 1 (usage program ∷ [])

-- From the connection on. `sendCommand` and `receiveServerResponse` return true on every path.
talk : (ℕ → Bytes) → Network → ℕ → Bytes → Bytes → Outcome Run
unfolding gives_up send_command
talk fresh network port command address =
    let exchange = receive_server_response fresh command network.reads >>= λ lines. ok (record {
      exit_code = 0;
      sent = some (went_out network (send_command command));
      printed = lines;
    }) in
    if network.socket_opens
    then if network.connects address port then exchange else gives_up 4 []
    else gives_up 3 []

start : (ℕ → Bytes) → Network → Bytes × ℕ × Bytes → Outcome Run
unfolding talk gives_up
start fresh network (server_name, port, command) =
    get_server_ip_address network server_name >>= λ found. elim found [
      | none ↦ gives_up 2 (unresolved server_name ∷ [])
      | some address ↦ talk fresh network port command address
    ]

unfoldable pub main : (ℕ → Bytes) → (Bytes → ℕ) → Network → List Bytes → Outcome Run
unfolding misused start
main fresh atoi network argv = elim (get_command_line_arguments atoi argv) [
  | none ↦ misused argv
  | some given ↦ start fresh network given
]
