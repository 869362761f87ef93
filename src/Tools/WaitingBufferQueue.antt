-- ===== src/Tools/WaitingBufferQueue.antt =====
-- src/Tools/waitingBufferQueue.cpp: the common waiting buffer queue. The static members are a
-- record, and the methods that change them return the new record.
pub mod Fifo
pub mod Search
pub mod Refines
pub mod Valid
pub mod Weights
use multithreaded_network_jo.Prelude.{
  ℕ, zero, suc, ◌+◌, ◌-◌, ◌%◌, ◌^◌, Option, none, some, List, [], ◌∷◌, ◌++◌, Bool, ◌==◌, ltb,
  if◌then◌else◌, Bytes, same_text, get_elem?, Outcome, ok, fault, empty_front, out_of_range,
  endless_loop, ◌>>=◌,
}
use multithreaded_network_jo.Commands.{JobTriplate}

-- `capacity` and `size` are of type `size_t`, 64 bits wide.
pub record Queue : Type 0 where
  pub capacity : ℕ
  pub size : ℕ
  pub buffer : List JobTriplate

abbrev pub get_capacity : Queue → ℕ
get_capacity q = q.capacity

abbrev pub get_size : Queue → ℕ
get_size q = q.size

pub set_capacity : ℕ → Queue → Queue
set_capacity capacity q = record q { capacity = capacity }

-- A full buffer refuses the triplate, with a message on the standard error stream only.
unfoldable pub insert_job_triplate : JobTriplate → Queue → Queue
insert_job_triplate triplate q =
    if ltb q.size q.capacity
    then record q { buffer = q.buffer ++ triplate ∷ []; size = (q.size + 1) % 2 ^ 64 }
    else q

-- `size--`
abbrev decrease : ℕ → ℕ
decrease size = (size + 2 ^ 64 - 1) % 2 ^ 64

take_front : List JobTriplate → Queue → Outcome (JobTriplate × Queue)
take_front [] q = fault empty_front
take_front (triplate ∷ rest) q = ok (triplate, record q { buffer = rest; size = decrease q.size })

-- `front()` and `erase(begin())` of an empty vector are undefined.
unfoldable pub get_job_triplate : Queue → Outcome (JobTriplate × Queue)
unfolding take_front
get_job_triplate q = take_front q.buffer q

-- `buffer.at(index)` throws past the end.
unfoldable pub at : ℕ → Queue → Outcome JobTriplate
at index q = elim (get_elem? q.buffer index) [
  | none ↦ fault out_of_range
  | some triplate ↦ ok triplate
]

-- `buffer.erase(buffer.begin() + i)`
erase_at : ℕ → List JobTriplate → List JobTriplate
erase_at i [] = []
erase_at zero (x ∷ xs) = xs
erase_at (suc i) (x ∷ xs) = x ∷ erase_at i xs

-- The loop of `removeJobTriplateByID`; its counter is an `unsigned int`, 32 bits wide.
search_from : ℕ → ℕ → Bytes → Queue → Outcome (Option JobTriplate × Queue)
search_from zero i job_id q = fault endless_loop
search_from (suc fuel) i job_id q =
    let next = search_from fuel ((i + 1) % 2 ^ 32) job_id q in
    if ltb i q.size
    then (do
      triplate ← at i q
      if same_text triplate.job_id job_id
          then ok (some triplate, record q { buffer = erase_at i q.buffer; size = decrease q.size })
          else next)
    else ok (none, q)

-- `some` is the answer true with the triplate that was removed, `none` the answer false.
unfoldable pub remove_job_triplate_by_id : Bytes → Queue → Outcome (Option JobTriplate × Queue)
unfolding search_from erase_at
remove_job_triplate_by_id job_id q = search_from (suc q.size) 0 job_id q

abbrev pub is_full : Queue → Bool
is_full q = q.size == q.capacity

abbrev pub is_empty : Queue → Bool
is_empty q = q.size == 0
