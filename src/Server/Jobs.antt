-- ===== src/Server/Jobs.antt =====
-- The job of a worker in src/Server/Threads/workerThread.cpp: the arguments for `execvp`, and the
-- buffers of the response.
pub mod Passed
pub mod Response
use multithreaded_network_jo.Prelude.{
  ℕ, zero, suc, ◌+◌, Option, none, some, List, [], ◌∷◌, ◌++◌, Bool, true, false, ◌==◌, ◌&&◌, not,
  if◌then◌else◌, Bytes,
}

-- `job[i]`, where the byte behind the text is zero.
abbrev pub next_byte : Bytes → ℕ
next_byte [] = 0
next_byte (c ∷ s) = c

-- The loop of `getJobArguments` adds one for each space before another byte than a space.
unfoldable pub count_breaks : Bytes → ℕ
count_breaks [] = 0
count_breaks (c ∷ s) = (if (c == b' ') && not (next_byte s == b' ') then 1 else 0) + count_breaks s

-- The texts that successive calls of `strtok` with a space return, before the first null pointer.
unfoldable pub tokens_from : Bytes → Bytes → List Bytes
tokens_from [] [] = []
tokens_from (d ∷ word) [] = (d ∷ word) ∷ []
tokens_from word (c ∷ s) =
    let longer = tokens_from (word ++ c ∷ []) s in
    let others = tokens_from [] s in
    if c == b' ' then (elim word [ [] ↦ others | d ∷ w ↦ (d ∷ w) ∷ others ]) else longer

abbrev pub tokens : Bytes → List Bytes
tokens job = tokens_from [] job

-- So many calls of `strtok`, and the null pointer behind them.
unfoldable pub fill_arguments : ℕ → List Bytes → List (Option Bytes)
fill_arguments zero left = none ∷ []
fill_arguments (suc k) [] = none ∷ fill_arguments k []
fill_arguments (suc k) (word ∷ left) = some word ∷ fill_arguments k left

unfoldable pub get_job_arguments : Bytes → List (Option Bytes)
unfolding fill_arguments count_breaks tokens_from
get_job_arguments job = fill_arguments (1 + count_breaks job) (tokens job)
