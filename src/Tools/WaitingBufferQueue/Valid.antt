-- ===== src/Tools/WaitingBufferQueue/Valid.antt =====
-- Well-formed waiting buffers: what every method of src/Tools/waitingBufferQueue.cpp keeps.
use multithreaded_network_jo.Prelude.{
  ℕ, ◌^◌, ◌<◌, ◌≤◌, ◌≡◌, sym, subst, ◌∙◌, Option, List, [], ◌∷◌, Bytes, length, length-append,
  arith, ok,
}
use multithreaded_network_jo.Commands.{JobTriplate}
use multithreaded_network_jo.Tools.WaitingBufferQueue.{
  Queue, insert_job_triplate, get_job_triplate, remove_job_triplate_by_id,
}
use multithreaded_network_jo.Tools.WaitingBufferQueue.Fifo.{length-extract}
use multithreaded_network_jo.Tools.WaitingBufferQueue.Search.{
  queue_of, remove_job_triplate_by_id-extract,
}

-- The size is the length of the buffer and within the capacity `n`, which is a 32-bit number.
pub record IsValid (n : ℕ) (q : Queue) : Type 0 where
  pub capacity_eq : q.capacity ≡ n
  pub size_eq : q.size ≡ length q.buffer
  pub within : length q.buffer ≤ n
  pub small : n < 2 ^ 32

pub insert-IsValid :
    (n : ℕ) (j : JobTriplate) (q : Queue) → IsValid n q → IsValid n (insert_job_triplate j q)
unfolding insert_job_triplate
insert-IsValid n j q v = ground (arith, length-append q.buffer (j ∷ []))

get_from :
    (n size cap : ℕ) (xs : List JobTriplate) (j : JobTriplate) (q' : Queue)
    → IsValid n (record { capacity = cap; size = size; buffer = xs })
    → get_job_triplate (record { capacity = cap; size = size; buffer = xs }) ≡ ok (j, q')
    → IsValid n q'
unfolding get_job_triplate
get_from n size cap [] j q' v h = cc
get_from n size cap (x ∷ xs) j q' v h = ground arith

pub get-IsValid :
    (n : ℕ) (q : Queue) {j : JobTriplate} {q' : Queue}
    → get_job_triplate q ≡ ok (j, q')
    → IsValid n q
    → IsValid n q'
get-IsValid n q {j} {q'} h v = get_from n q.size q.capacity q.buffer j q' v h

queue_of-IsValid : (n : ℕ) (q : Queue) → IsValid n q → q ≡ queue_of n q.buffer
queue_of-IsValid n q v = ground arith

pub remove-IsValid :
    (n : ℕ) (job_id : Bytes) (q : Queue) {r : Option JobTriplate × Queue}
    → remove_job_triplate_by_id job_id q ≡ ok r
    → IsValid n q
    → IsValid n r.1
remove-IsValid n job_id q {r} h v =
    let e = remove_job_triplate_by_id-extract n job_id q.buffer (omega arith) in
    let f = subst (λ p. remove_job_triplate_by_id job_id p ≡ ok r) (queue_of-IsValid n q v) h in
    ground (arith, sym f ∙ e, length-extract job_id q.buffer)
