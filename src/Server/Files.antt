-- ===== src/Server/Files.antt =====
-- `readFile` and `createOutputFile` of src/Server/Threads/workerThread.cpp.
pub mod Reading
use multithreaded_network_jo.Prelude.{
  ℕ, zero, suc, ◌+◌, ◌-◌, Option, none, some, List, [], ◌∷◌, Bool, true, false, ltb, if◌then◌else◌,
  Bytes, length, write_at, Outcome, ok, fault, endless_loop, ◌>>=◌,
}

-- A file as the calls on it answer: `open`, the size by `fstat`, and what `read` gives at an offset
-- for at most so many bytes. `none` is an error.
pub record OpenFile : Type 0 where
  pub opens : Bool
  pub stat_size : Option ℕ
  pub read : ℕ → ℕ → Option Bytes

-- The loop: how many bytes have been read, and the array. The fuel counts the rounds.
unfoldable pub read_rounds :
    ℕ → (ℕ → ℕ → Option Bytes) → ℕ → ℕ → Bytes → Outcome (Option (ℕ × Bytes))
read_rounds zero read total size memory = fault endless_loop
read_rounds (suc fuel) read total size memory =
    let next : Outcome (Option (ℕ × Bytes)) = elim (read total (size - total)) [
      | none ↦ ok none
      | some bytes ↦ read_rounds fuel read (total + length bytes) size (write_at total bytes memory)
    ] in
    if ltb total size then next else ok (some (total, memory))

-- The size that the caller is given and the array, with the zero byte behind the contents.
terminated : Option (ℕ × Bytes) → Outcome (Option (ℕ × Bytes))
terminated none = ok none
terminated (some (total, memory)) = ok (some (total, write_at total (0 ∷ []) memory))

-- `none` is the null pointer.
unfoldable pub read_file : (ℕ → Bytes) → ℕ → OpenFile → Outcome (Option (ℕ × Bytes))
unfolding terminated read_rounds
read_file fresh fuel file =
    let contents : Outcome (Option (ℕ × Bytes)) = elim file.stat_size [
      | none ↦ ok none
      | some size ↦ read_rounds fuel file.read 0 size (fresh (size + 1)) >>= terminated
    ] in
    if file.opens then contents else ok none

-- `mkdir` of the directory for the outputs.
pub data MkdirAnswer : Type 0 where
  made exists_already mkdir_fails : MkdirAnswer

-- Whether the file for an output is there to be written.
unfoldable pub create_output_file : MkdirAnswer → Bool → Bool
create_output_file made opened = opened
create_output_file exists_already opened = opened
create_output_file mkdir_fails opened = false
