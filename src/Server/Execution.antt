-- ===== src/Server/Execution.antt =====
-- `executeJob` of src/Server/Threads/workerThread.cpp in both processes: what the parent does on
-- behalf of its worker thread, and what the child does before it becomes the program of the job.
pub mod Parent
pub mod Child
use multithreaded_network_jo.Prelude.{
  ℕ, ◌+◌, ◌%◌, ◌^◌, Option, none, some, List, [], ◌∷◌, ◌++◌, Bool, true, false, if◌then◌else◌,
  Bytes, codes, to_string, length, write_at, c_string, Outcome, ok, fault, null_text, ◌>>=◌,
}
use multithreaded_network_jo.Commands.{JobTriplate}
use multithreaded_network_jo.Server.State.{Server, increase_running_jobs, c_str, send_message}
use multithreaded_network_jo.Server.Worker.{create_output_response}
use multithreaded_network_jo.Server.Jobs.{get_job_arguments}
use multithreaded_network_jo.Server.Files.{OpenFile, read_file, MkdirAnswer, create_output_file}

abbrev pub max_output_file_path : ℕ
max_output_file_path = 100

-- `"temp/%d.output"` of a process identifier, which is positive.
abbrev pub output_file_path : ℕ → Bytes
output_file_path pid = codes "temp/" ++ to_string pid ++ codes ".output"

-- The array that `sprintf` has written it to.
unfoldable pub path_array : (ℕ → Bytes) → ℕ → Bytes
path_array fresh pid = write_at 0 (output_file_path pid ++ 0 ∷ []) (fresh max_output_file_path)

-- What the calls of the parent answer: `pipe`, `fork` with the identifier of the child, the write to
-- the pipe, the file at a path when the child has ended, and `unlink`.
pub record ParentCalls : Type 0 where
  pub pipes : Bool
  pub forks : Option ℕ
  pub writes : Bool
  pub file_at : Bytes → OpenFile
  pub unlinks : Bool

-- `sendDataToChildProcess` gives the whole array to the pipe.
unfoldable pub send_data_to_child_process : Bool → Bytes → Option Bytes
send_data_to_child_process writes message = if writes then some message else none

-- The response to the output in an array, which a null pointer may stand for. `%s` reads the array
-- up to its first zero byte.
answer_client : JobTriplate → Option (ℕ × Bytes) → Server → Outcome Server
answer_client j none s = fault null_text
answer_client j (some (size, contents)) s = c_string contents >>= λ output.
    ok (send_message j.socket_id (create_output_response output j.job_id) s)

-- Behind `fork` in the parent, the number of rounds for `readFile` given.
parent_code : (ℕ → Bytes) → ℕ → ParentCalls → JobTriplate → ℕ → Server → Outcome (Bool × Server)
unfolding send_data_to_child_process answer_client path_array
parent_code fresh fuel calls j pid s =
    let s' = increase_running_jobs s in
    let path = path_array fresh pid in
    elim (send_data_to_child_process calls.writes path) [
      | none ↦ ok (false, s')
      | some sent ↦ c_string path >>= λ name.
          read_file fresh fuel (calls.file_at name) >>= λ contents.
          answer_client j contents s' >>= λ s''. ok (calls.unlinks, s'')
    ]

-- The answer of the function in the parent process, and the server.
unfoldable pub execute_job :
    (ℕ → Bytes) → ℕ → ParentCalls → JobTriplate → Server → Outcome (Bool × Server)
unfolding parent_code
execute_job fresh fuel calls j s =
    let forked : Outcome (Bool × Server) = elim calls.forks [
      | none ↦ ok (false, s)
      | some pid ↦ parent_code fresh fuel calls j pid s
    ] in
    if calls.pipes then forked else ok (false, s)

-- What the calls of the child answer: the read of the pipe, `mkdir`, whether a path can be opened for
-- the output, and whether a program can be executed with its arguments.
pub record ChildCalls : Type 0 where
  pub receives : Option Bytes
  pub mkdirs : MkdirAnswer
  pub opens_output : Bytes → Bool
  pub executes : Option Bytes → List (Option Bytes) → Bool

-- The child ends with a failure, becomes a program with the given standard output, or goes on as a
-- copy of the worker thread, since `execvp` has failed and the function returns.
pub data ChildEnd : Type 0 where
  exits : ChildEnd
  becomes : Option Bytes → List (Option Bytes) → Bytes → ChildEnd
  returns : Bytes → ChildEnd

-- `receiveDataFromParentProcess`: what the array holds then.
unfoldable pub receive_data_from_parent_process : (ℕ → Bytes) → Option Bytes → Option Bytes
receive_data_from_parent_process fresh none = none
receive_data_from_parent_process fresh (some bytes) =
    some (write_at 0 bytes (fresh max_output_file_path))

abbrev pub first_argument : List (Option Bytes) → Option Bytes
first_argument [] = none
first_argument (argument ∷ arguments) = argument

-- `dup2` and `execvp`.
run_program : ChildCalls → List (Option Bytes) → Bytes → ChildEnd
run_program calls arguments path =
    if calls.executes (first_argument arguments) arguments
    then becomes (first_argument arguments) arguments path
    else returns path

unfoldable pub child_code : (ℕ → Bytes) → ChildCalls → JobTriplate → Outcome ChildEnd
unfolding receive_data_from_parent_process run_program
child_code fresh calls j = elim (receive_data_from_parent_process fresh calls.receives) [
  | none ↦ ok exits
  | some array ↦ c_string array >>= λ path. ok (
      if create_output_file calls.mkdirs (calls.opens_output path)
      then run_program calls (get_job_arguments (c_str j.job)) path
      else exits)
]
