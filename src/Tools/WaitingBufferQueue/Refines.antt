-- ===== src/Tools/WaitingBufferQueue/Refines.antt =====
-- The methods of src/Tools/waitingBufferQueue.cpp against the contract of the queue.
use multithreaded_network_jo.Prelude.{
  ℕ, ◌^◌, ◌<◌, ◌≤◌, ◌≡◌, refl, Option, none, some, List, [], ◌∷◌, length, length-append, arith,
  Outcome, ok, fault, empty_front, ◌>>=◌, inl, inr, Option-cases,
}
use multithreaded_network_jo.Commands.{JobTriplate}
use multithreaded_network_jo.Tools.WaitingBufferQueue.{
  Queue, insert_job_triplate, get_job_triplate, remove_job_triplate_by_id,
}
use multithreaded_network_jo.Tools.WaitingBufferQueue.Fifo.{
  Call, insert, get, remove, Reply, done, taken, removed, serve, serve_all, length-serve,
}
use multithreaded_network_jo.Tools.WaitingBufferQueue.Search.{
  queue_of, decrease-append, remove_job_triplate_by_id-extract,
}

-- One call of a method, and a sequence of calls that stops at the first fault.
unfoldable pub apply : Call → Queue → Outcome (Reply × Queue)
apply (insert t) q = ok (done, insert_job_triplate t q)
apply get q = do record { 0 = t; 1 = q' } ← get_job_triplate q; ok (taken t, q')
apply (remove job_id) q = do
  record { 0 = found; 1 = q' } ← remove_job_triplate_by_id job_id q
  ok (removed found, q')

unfoldable pub apply_all : List Call → Queue → Outcome (List Reply × Queue)
apply_all [] q = ok ([], q)
apply_all (c ∷ cs) q = do
  record { 0 = r; 1 = q' } ← apply c q
  record { 0 = rs; 1 = q'' } ← apply_all cs q'
  ok (r ∷ rs, q'')

-- The answer of the contract, as the outcome of the methods.
abbrev pub answer {ℓ} : {A : Type ℓ} → ℕ → Option (A × List JobTriplate) → Outcome (A × Queue)
answer cap none = fault empty_front
answer cap (some (r, xs)) = ok (r, queue_of cap xs)

apply-serve :
    (cap : ℕ) (c : Call) (xs : List JobTriplate)
    → cap < 2 ^ 32
    → length xs ≤ cap
    → apply c (queue_of cap xs) ≡ answer cap (serve cap c xs)
unfolding apply serve insert_job_triplate get_job_triplate
apply-serve cap (insert t) xs small h = ground (arith, length-append xs (t ∷ []))
apply-serve cap get [] small h = refl
apply-serve cap get (x ∷ xs) small h = rw (decrease-append [] xs x (omega arith))
apply-serve cap (remove job_id) xs small h =
    rw (remove_job_triplate_by_id-extract cap job_id xs (omega arith))

-- Every history of insertions, removals and searches gives the replies and the content of a bounded
-- first-in-first-out queue, and faults exactly where that queue is asked for an item that it lacks.
-- The capacity is a 32-bit number, and the history starts within the capacity.
pub apply_all-serve_all :
    (cap : ℕ) (cs : List Call) (xs : List JobTriplate)
    → cap < 2 ^ 32
    → length xs ≤ cap
    → apply_all cs (queue_of cap xs) ≡ answer cap (serve_all cap cs xs)
unfolding apply_all serve_all
apply_all-serve_all cap [] xs small h = refl
apply_all-serve_all cap (c ∷ cs) xs small h = elim (Option-cases (serve cap c xs)) [
  | inl e ↦ rw (apply-serve cap c xs small h, serve_all, e)
  | inr ((r, ys), e) ↦
      rw
        (
          apply-serve cap c xs small h,
          serve_all,
          e,
          apply_all-serve_all cap cs ys small (length-serve cap c xs ys r h e),
        )
        (elim (Option-cases (serve_all cap cs ys)) [ inl f ↦ rw f | inr ((rs, zs), f) ↦ rw f ])
]
