-- ===== src/Tests/Execution.antt =====
-- The start of the server, and a job's processes and file, at concrete inputs.
use multithreaded_network_jo.Prelude.{
  ℕ, zero, suc, ◌+◌, ◌≤◌, ◌≡◌, inl, inr, refl, ap, ◌∙◌, arith, Option, some, List, [], ◌∷◌, ◌++◌,
  Bool, true, false, ltb, if◌then◌else◌, Bytes, codes, take, drop, length, drop-length, IsAllocator,
  c_string, ok, fault, endless_loop,
}
use multithreaded_network_jo.Server.State.{c_str}
use multithreaded_network_jo.Server.System.{System}
use multithreaded_network_jo.Server.Jobs.{get_job_arguments}
use multithreaded_network_jo.Server.Files.{OpenFile, read_file, made, create_output_file}
use multithreaded_network_jo.Server.Files.Reading.{Serves, read_file-content, read_file-endless}
use multithreaded_network_jo.Server.Execution.{
  ParentCalls, ChildCalls, child_code, becomes, returns, exits, first_argument, output_file_path,
  path_array, max_output_file_path,
}
use multithreaded_network_jo.Server.Execution.Child.{child_opens_parents_path}
use multithreaded_network_jo.Server.Startup.{SocketCalls, Descriptor, failed, opened, closed}
use multithreaded_network_jo.Tests.Tools.{job_1}

-- A read that gives one byte at a time, and none at the end.
read_byte : Bytes → ℕ → ℕ → Option Bytes
read_byte content offset count = some (take 1 (drop offset content))

unfoldable pub zeros : ℕ → Bytes
zeros zero = []
zeros (suc n) = 0 ∷ zeros n

pub zeros-IsAllocator : IsAllocator zeros
unfolding zeros
zeros-IsAllocator zero = refl
zeros-IsAllocator (suc n) = omega (arith, zeros-IsAllocator n)

drop-before :
    (content before rest : Bytes) → content ≡ before ++ rest → drop (length before) content ≡ rest
drop-before content before rest e = ap (drop (length before)) e ∙ drop-length before rest

read_byte-Serves : (content : Bytes) → Serves (read_byte content) content
unfolding read_byte
read_byte-Serves content before [] count e positive = (
  [],
  [],
  refl,
  omega arith,
  inl refl,
  ap (λ l. some (take 1 l)) (drop-before content before [] e),
)
read_byte-Serves content before (c ∷ rest) count e positive = (
  c ∷ [],
  rest,
  refl,
  omega arith,
  inr (omega arith),
  ap (λ l. some (take 1 l)) (drop-before content before (c ∷ rest) e),
)

abbrev two_bytes : OpenFile
two_bytes = record { opens = true; stat_size = some 2; read = read_byte (codes "ok") }

read_file-content_example : read_file zeros 3 two_bytes ≡ ok (some (2, codes "ok" ++ 0 ∷ []))
read_file-content_example =
    read_file-content zeros 3 two_bytes (codes "ok") zeros-IsAllocator refl refl
      (read_byte-Serves (codes "ok")) (omega arith)

-- The size was taken before the file lost a byte.
abbrev shortened : OpenFile
shortened = record { opens = true; stat_size = some 2; read = read_byte (codes "o") }

read_file-endless_example : read_file zeros 1_000 shortened ≡ fault endless_loop
read_file-endless_example =
    read_file-endless zeros 1_000 2 shortened (codes "o") refl refl (read_byte-Serves (codes "o"))
      (omega arith)

abbrev parent_calls : ParentCalls
parent_calls = record {
  pipes = true;
  forks = some 41;
  writes = true;
  file_at = λ path. two_bytes;
  unlinks = true;
}

abbrev child_calls : ChildCalls
child_calls = record {
  receives = some (path_array zeros 41);
  mkdirs = made;
  opens_output = λ path. true;
  executes = λ program arguments. true;
}

child_opens_parents_path_example :
    (length (output_file_path 41) + 1 ≤ max_output_file_path)
    × (c_string (path_array zeros 41) ≡ ok (output_file_path 41))
    × (child_code zeros child_calls job_1
        ≡ ok (
            if create_output_file child_calls.mkdirs
              (child_calls.opens_output (output_file_path 41))
            then if child_calls.executes
                (first_argument (get_job_arguments (c_str job_1.job)))
                (get_job_arguments (c_str job_1.job))
              then becomes
                  (first_argument (get_job_arguments (c_str job_1.job)))
                  (get_job_arguments (c_str job_1.job))
                  (output_file_path 41)
              else returns (output_file_path 41)
            else exits))
child_opens_parents_path_example =
    child_opens_parents_path zeros zeros child_calls job_1 41 (omega arith) refl

-- Descriptor 3, on which all calls succeed, and none on any other.
abbrev is_three : Descriptor → Bool
is_three failed = false
is_three (opened fd) = ltb 2 fd
is_three (closed fd) = false

abbrev socket_calls : SocketCalls
socket_calls = record {
  socket = opened 3;
  sets_option = is_three;
  binds = λ d address. is_three d;
  listens = is_three;
}

abbrev argv : List Bytes
argv = codes "jobExecutorServer" ∷ codes "8080" ∷ codes "5" ∷ codes "2" ∷ []
