-- ===== src/Server/Choice.antt =====
-- What the threads of src/Server cannot decide: the answers of the operating system and the clients.
use multithreaded_network_jo.Prelude.{ℕ, Bool, true, false, Bytes}
use multithreaded_network_jo.Commands.{CcMode}

pub data Choice : Type 0 where
  -- nothing to choose; a return from `pthread_cond_wait` with no signal
  proceeds wakes_spuriously : Choice
  -- the two reads of a controller: the bytes of the command, or a failure, which leaves the mode of
  -- the command as whatever the uninitialised member holds, or a size that no array can have (a
  -- negative or a huge one, or what `commandSize` happens to hold when the stream has ended)
  receives : Bytes → Choice
  fails_to_receive : CcMode → Choice
  size_unusable : Choice
  -- `accept`: a client's socket, or a failure
  accepts : ℕ → Choice
  accept_fails : Choice
  -- `pthread_create`
  creates create_fails : Choice
  -- the pipe and the fork of a worker
  spawns spawn_fails : Choice
  -- the rest of a job: the path is not sent to the child, the output cannot be read, or it is read
  send_fails output_missing : Choice
  outputs : Bytes → Choice
  -- whether the directory of the outputs could be removed
  cleans_up : Bool → Choice

abbrev pub is_spurious : Choice → Bool
is_spurious wakes_spuriously = true
is_spurious _ = false
