-- ===== src/Tools/WaitingBufferQueue/Weights.antt =====
-- A weight summed over the waiting buffer of src/Tools/waitingBufferQueue.cpp, under its
-- operations, for a buffer in any state.
use multithreaded_network_jo.Prelude.{
  ℕ, zero, suc, ◌+◌, ◌≡◌, ◌%◌, ◌^◌, arith, refl, Bytes, List, [], ◌∷◌, ◌++◌, Option, none, some, ok,
  ltb, if◌then◌else◌, get_elem?,
}
use multithreaded_network_jo.Commands.{JobTriplate}
use multithreaded_network_jo.Tools.WaitingBufferQueue.{
  Queue, insert_job_triplate, get_job_triplate, remove_job_triplate_by_id, search_from, erase_at,
  at,
}

abbrev pub weigh : (JobTriplate → ℕ) → List JobTriplate → ℕ
weigh f [] = 0
weigh f (j ∷ js) = f j + weigh f js

abbrev pub weigh_found : (JobTriplate → ℕ) → Option JobTriplate → ℕ
weigh_found f none = 0
weigh_found f (some j) = f j

module _ (f : JobTriplate → ℕ) where
  weigh-append : (xs ys : List JobTriplate) → weigh f (xs ++ ys) ≡ weigh f xs + weigh f ys
  weigh-append [] ys = omega arith
  weigh-append (x ∷ xs) ys = omega (arith, weigh-append xs ys)

  pub weigh-insert :
      (j : JobTriplate) (q : Queue)
      → weigh f (insert_job_triplate j q).buffer + (if ltb q.size q.capacity then 0 else f j)
        ≡ weigh f q.buffer + f j
  unfolding insert_job_triplate
  weigh-insert j q = ground (arith, weigh-append q.buffer (j ∷ []))

  pub weigh-get :
      (q : Queue) {r : JobTriplate × Queue}
      → get_job_triplate q ≡ ok r
      → weigh f r.1.buffer + f r.0 ≡ weigh f q.buffer
  unfolding get_job_triplate
  weigh-get q {r} h = from_buffer q.buffer refl h
    where
      from_buffer :
          (xs : List JobTriplate)
          → q.buffer ≡ xs
          → get_job_triplate q ≡ ok r
          → weigh f r.1.buffer + f r.0 ≡ weigh f q.buffer
      from_buffer [] e h = ground arith
      from_buffer (x ∷ xs) e h = ground arith

  weigh-erase_at :
      (i : ℕ) (xs : List JobTriplate)
      → weigh f (erase_at i xs) + weigh_found f (get_elem? xs i) ≡ weigh f xs
  unfolding erase_at
  weigh-erase_at i [] = omega arith
  weigh-erase_at zero (x ∷ xs) = omega arith
  weigh-erase_at (suc i) (x ∷ xs) = omega (arith, weigh-erase_at i xs)

  weigh-search_from :
      (fuel i : ℕ) (job_id : Bytes) (q : Queue) {r : Option JobTriplate × Queue}
      → search_from fuel i job_id q ≡ ok r
      → weigh f r.1.buffer + weigh_found f r.0 ≡ weigh f q.buffer
  unfolding search_from at
  weigh-search_from zero i job_id q h = cc
  weigh-search_from (suc fuel) i job_id q {r} h =
      ground (
        arith,
        weigh-search_from fuel ((i + 1) % 2 ^ 32) job_id q {r = r},
        weigh-erase_at i q.buffer,
      )

  pub weigh-remove :
      (job_id : Bytes) (q : Queue) {r : Option JobTriplate × Queue}
      → remove_job_triplate_by_id job_id q ≡ ok r
      → weigh f r.1.buffer + weigh_found f r.0 ≡ weigh f q.buffer
  unfolding remove_job_triplate_by_id
  weigh-remove job_id q h = weigh-search_from (suc q.size) 0 job_id q h
