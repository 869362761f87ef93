-- ===== src/Server/Execution/Child.antt =====
-- The file of an output, as `executeJob` names it in the parent and in the child.
use multithreaded_network_jo.Prelude.{
  ℕ, ◌+◌, ◌<◌, ◌≤◌, ◌^◌, ◌≢◌, ◌≡◌, arith, some, [], ◌∷◌, ◌++◌, append_assoc, if◌then◌else◌, Bytes,
  codes, to_string, to_string-All, length-to_string, IsDigit, All, All-append, Lacks, length,
  length-append, drop, write_at, c_string, c_string-append, ok,
}
use multithreaded_network_jo.Commands.{JobTriplate}
use multithreaded_network_jo.Server.State.{c_str}
use multithreaded_network_jo.Server.Jobs.{get_job_arguments}
use multithreaded_network_jo.Server.Files.{create_output_file}
use multithreaded_network_jo.Server.Execution.{
  ChildCalls, exits, becomes, returns, output_file_path, path_array, child_code, first_argument,
  run_program, receive_data_from_parent_process, max_output_file_path,
}

digits-Lacks : (s : Bytes) → All IsDigit s → Lacks 0 s
digits-Lacks [] h = tt
digits-Lacks (c ∷ s) h = (omega arith, digits-Lacks s h.1)

path-Lacks : (pid : ℕ) → Lacks 0 (output_file_path pid)
path-Lacks pid =
    All-append (λ c. c ≢ 0) (codes "temp/") _ (ground arith)
      (All-append (λ c. c ≢ 0) (to_string pid) (codes ".output")
        (digits-Lacks (to_string pid) (to_string-All pid)) (ground arith))

-- An array that begins with a text and a zero byte, also as a copy in another array.
c_string-written :
    (m rest memory : Bytes) → Lacks 0 m → c_string (write_at 0 (m ++ 0 ∷ rest) memory) ≡ ok m
c_string-written m rest memory lacks =
    rw (append_assoc m (0 ∷ rest) (drop (0 + length (m ++ 0 ∷ rest)) memory))
      (c_string-append m (rest ++ drop (0 + length (m ++ 0 ∷ rest)) memory) lacks)

path_array-split :
    (fresh : ℕ → Bytes) (pid : ℕ)
    → (rest : Bytes) × (path_array fresh pid ≡ output_file_path pid ++ 0 ∷ rest)
unfolding path_array
path_array-split fresh pid = (_, append_assoc (output_file_path pid) (0 ∷ []) _)

-- Whatever the two arrays held: the path of the output fits the parent's array, the parent reads it
-- back from there, and a child that receives the array opens exactly this path. Behind that it ends
-- with a failure where the file cannot be created, becomes the program with the arguments of the
-- job and this output, or, where `execvp` fails, returns to the loop of the worker.
pub child_opens_parents_path :
    (fresh fresh' : ℕ → Bytes) (calls : ChildCalls) (j : JobTriplate) (pid : ℕ)
    → pid < 2 ^ 31
    → calls.receives ≡ some (path_array fresh pid)
    → let path = output_file_path pid in
      let arguments = get_job_arguments (c_str j.job) in
      (length path + 1 ≤ max_output_file_path)
      × (c_string (path_array fresh pid) ≡ ok path)
      × (child_code fresh' calls j
          ≡ ok (
              if create_output_file calls.mkdirs (calls.opens_output path)
              then if calls.executes (first_argument arguments) arguments
                then becomes (first_argument arguments) arguments path
                else returns path
              else exits))
unfolding child_code receive_data_from_parent_process run_program
child_opens_parents_path fresh fresh' calls j pid small e =
    let (rest, split) = path_array-split fresh pid in
    (
      simp length-append (omega (arith, length-to_string pid (omega arith))),
      rw split (c_string-append (output_file_path pid) rest (path-Lacks pid)),
      rw (
        e,
        child_code,
        split,
        c_string-written (output_file_path pid) rest (fresh' max_output_file_path) (path-Lacks pid),
      ),
    )
