-- ===== src/Tools/WaitingBufferQueue/Search.antt =====
-- The loop of `removeJobTriplateByID` in src/Tools/waitingBufferQueue.cpp.
use multithreaded_network_jo.Prelude.{
  ℕ, zero, suc, ◌+◌, ◌%◌, ◌^◌, ◌<◌, ◌≡◌, refl, some, List, [], ◌∷◌, ◌++◌, Bytes, same_text, length,
  length-append, arith, ok, Bool-cases, inl, inr, append_assoc, get_elem?, lt→ltb, le→ltb, sym, ◌∙◌,
}
use multithreaded_network_jo.Commands.{JobTriplate}
use multithreaded_network_jo.Tools.WaitingBufferQueue.{
  Queue, at, erase_at, search_from, decrease, remove_job_triplate_by_id,
}
use multithreaded_network_jo.Tools.WaitingBufferQueue.Fifo.{extract}

-- The queue whose size is the length of its buffer.
abbrev pub queue_of : ℕ → List JobTriplate → Queue
queue_of cap xs = record { capacity = cap; size = length xs; buffer = xs }

get_elem?-append :
    (before xs : List JobTriplate) (x : JobTriplate)
    → get_elem? (before ++ x ∷ xs) (length before) ≡ some x
get_elem?-append [] xs x = refl
get_elem?-append (b ∷ before) xs x = get_elem?-append before xs x

erase_at-append :
    (before xs : List JobTriplate) (x : JobTriplate)
    → erase_at (length before) (before ++ x ∷ xs) ≡ before ++ xs
unfolding erase_at
erase_at-append [] xs x = refl
erase_at-append (b ∷ before) xs x = rw (erase_at-append before xs x)

pub at-append :
    (cap : ℕ) (before xs : List JobTriplate) (x : JobTriplate)
    → at (length before) (queue_of cap (before ++ x ∷ xs)) ≡ ok x
unfolding at
at-append cap before xs x = rw (get_elem?-append before xs x, at)

pub decrease-append :
    (before xs : List JobTriplate) (x : JobTriplate)
    → length (before ++ x ∷ xs) < 2 ^ 32
    → decrease (length (before ++ x ∷ xs)) ≡ length (before ++ xs)
decrease-append before xs x h =
    omega (arith, length-append before (x ∷ xs), length-append before xs)

pub next_index :
    (before xs : List JobTriplate) (x : JobTriplate)
    → length (before ++ x ∷ xs) < 2 ^ 32
    → (length before + 1) % 2 ^ 32 ≡ length (before ++ x ∷ [])
next_index before xs x h =
    omega (arith, length-append before (x ∷ xs), length-append before (x ∷ []))

search_from-extract :
    (fuel cap : ℕ) (job_id : Bytes) (before xs : List JobTriplate)
    → length xs < fuel
    → length (before ++ xs) < 2 ^ 32
    → search_from fuel (length before) job_id (queue_of cap (before ++ xs))
      ≡ ok ((extract job_id xs).0, queue_of cap (before ++ (extract job_id xs).1))
unfolding search_from extract
search_from-extract zero cap job_id before xs h fits = absurd (omega arith)
search_from-extract (suc fuel) cap job_id before [] h fits =
    rw (le→ltb (length before) (length (before ++ [])) (omega (arith, length-append before [])))
search_from-extract (suc fuel) cap job_id before (x ∷ xs) h fits =
    rw
      (
        lt→ltb (length before) (length (before ++ x ∷ xs))
            (omega (arith, length-append before (x ∷ xs))),
        at-append cap before xs x,
      )
      (elim (Bool-cases (same_text x.job_id job_id)) [
        | inl hit ↦ rw (hit, erase_at-append before xs x, decrease-append before xs x fits)
        | inr miss ↦
            rw (miss, next_index before xs x fits, sym (append_assoc before (x ∷ []) xs))
              (search_from-extract fuel cap job_id (before ++ x ∷ []) xs (omega arith)
                  (rw (append_assoc before (x ∷ []) xs) fits)
                ∙ rw (append_assoc before (x ∷ []) (extract job_id xs).1))
      ])

-- Removing by identifier takes out the first triplate that has it, for a queue of any content.
pub remove_job_triplate_by_id-extract :
    (cap : ℕ) (job_id : Bytes) (xs : List JobTriplate)
    → length xs < 2 ^ 32
    → remove_job_triplate_by_id job_id (queue_of cap xs)
      ≡ ok ((extract job_id xs).0, queue_of cap (extract job_id xs).1)
unfolding remove_job_triplate_by_id
remove_job_triplate_by_id-extract cap job_id xs h =
    search_from-extract (suc (length xs)) cap job_id [] xs (omega arith) h
