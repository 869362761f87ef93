-- ===== src/Tools/WaitingBufferQueue/Fifo.antt =====
-- The contract of the waiting buffer: a list of triplates of bounded length, oldest first.
use multithreaded_network_jo.Prelude.{
  ℕ, ◌≤◌, ◌≡◌, Option, none, some, List, [], ◌∷◌, ◌++◌, ltb, if◌then◌else◌, Bytes, same_text,
  length, length-append, arith,
}
use mathlib.Core.Option
use multithreaded_network_jo.Commands.{JobTriplate}

pub data Call : Type 0 where
  insert : JobTriplate → Call
  get : Call
  remove : Bytes → Call

pub data Reply : Type 0 where
  done : Reply
  taken : JobTriplate → Reply
  removed : Option JobTriplate → Reply

-- Take out the first triplate with the identifier, and keep the others in order.
unfoldable pub extract : Bytes → List JobTriplate → Option JobTriplate × List JobTriplate
extract job_id [] = (none, [])
extract job_id (x ∷ xs) =
    let (found, rest) = extract job_id xs in
    if same_text x.job_id job_id then (some x, xs) else (found, x ∷ rest)

-- `none`: the call is an error, namely a `get` from the empty queue.
unfoldable pub serve : ℕ → Call → List JobTriplate → Option (Reply × List JobTriplate)
serve cap (insert t) xs = some (done, if ltb (length xs) cap then xs ++ t ∷ [] else xs)
serve cap get [] = none
serve cap get (x ∷ xs) = some (taken x, xs)
serve cap (remove job_id) xs = let (found, rest) = extract job_id xs in some (removed found, rest)

unfoldable pub serve_all : ℕ → List Call → List JobTriplate → Option (List Reply × List JobTriplate)
serve_all cap [] xs = some ([], xs)
serve_all cap (c ∷ cs) xs = elim (serve cap c xs) [
  | none ↦ none
  | some (r, ys) ↦ Option.map (λ s. (r ∷ s.0, s.1)) (serve_all cap cs ys)
]

pub length-extract :
    (job_id : Bytes) (xs : List JobTriplate) → length (extract job_id xs).1 ≤ length xs
unfolding extract
length-extract job_id [] = omega arith
length-extract job_id (x ∷ xs) = ground (arith, length-extract job_id xs)

-- No call makes the queue longer than its capacity.
pub length-serve :
    (cap : ℕ) (c : Call) (xs ys : List JobTriplate) (r : Reply)
    → length xs ≤ cap
    → serve cap c xs ≡ some (r, ys)
    → length ys ≤ cap
unfolding serve
length-serve cap (insert t) xs ys r h e = ground (arith, length-append xs (t ∷ []))
length-serve cap get [] ys r h e = cc
length-serve cap get (x ∷ xs) ys r h e = ground arith
length-serve cap (remove job_id) xs ys r h e = ground (arith, length-extract job_id xs)
