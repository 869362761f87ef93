-- ===== src/Server/Races/Insertion.antt =====
-- Two controllers of src/Server/Threads/controllerThread.cpp and the last free place of the buffer.
use multithreaded_network_jo.Prelude.{
  ℕ, ◌+◌, ◌%◌, ◌<◌, ◌^◌, ◌≡◌, ◌≢◌, sym, arith, ap, subst, ◌∙◌, List, [], ◌∷◌, ◌++◌, append_assoc,
  none, replicate, length, length-append, codes,
}
use multithreaded_network_jo.Commands.{JobTriplate}
use multithreaded_network_jo.Tools.WaitingBufferQueue.{insert_job_triplate}
use multithreaded_network_jo.Tools.WaitingBufferQueue.Search.{queue_of}
use multithreaded_network_jo.Server.State.{
  mutex_job_insertion, Server, Packet, lock, unlock, send_message,
}
use multithreaded_network_jo.Server.Choice.{proceeds}
use multithreaded_network_jo.Server.Controller
use multithreaded_network_jo.Server.Controller.{Controller, controller_step, step_at}
use multithreaded_network_jo.Server.System.{System, run}
use multithreaded_network_jo.Server.Induction.{update_other}
use multithreaded_network_jo.Server.Handlers.{Returns, message, send_all-append}
use multithreaded_network_jo.Server.Handlers.Issue.{next_job}
use multithreaded_network_jo.Server.Races.{
  run-then, controller-run, many, controller_at, controller_moves,
}

-- The job of a controller that is about to make its triplate.
abbrev pub job_of : ℕ → Controller → JobTriplate
job_of entered c = next_job entered c.client_socket c.client_command

-- What its client is told.
abbrev pub submitted : JobTriplate → List (ℕ × Packet)
submitted j =
    message j.socket_id (codes "JOB <" ++ j.job_id ++ codes ", " ++ j.job ++ codes "> SUBMITTED")

-- The job has been handed to the buffer, and the buffer may be entered again.
record Submits (s : Server) (j : JobTriplate) (s' : Server) : Type 0 where
  queue : s'.queue ≡ insert_job_triplate j s.queue
  sent : s'.sent ≡ s.sent ++ submitted j
  entered : s'.jobs_entered ≡ (s.jobs_entered + 1) % 2 ^ 32
  free : s'.owner mutex_job_insertion ≡ none

submit-Submits :
    (i : ℕ) (s : Server) (c : Controller)
    → c.pc ≡ Controller.make_triplate
    → s.owner mutex_job_insertion ≡ none
    → Returns
        (many (controller_at i) (replicate 6 proceeds) s c)
        (λ r. Submits s (job_of s.jobs_entered c) r.0)
unfolding many controller_step step_at lock unlock send_message
submit-Submits i s c at free =
    let j = job_of s.jobs_entered c in ground (arith, send_all-append s.sent (submitted j))

insert-last :
    (xs : List JobTriplate) (j : JobTriplate)
    → length xs + 1 < 2 ^ 32
    → insert_job_triplate j (queue_of (length xs + 1) xs) ≡ queue_of (length xs + 1) (xs ++ j ∷ [])
unfolding insert_job_triplate
insert-last xs j small = ground (arith, length-append xs (j ∷ []))

insert-full :
    (xs : List JobTriplate) (j k : JobTriplate)
    → insert_job_triplate k (queue_of (length xs + 1) (xs ++ j ∷ []))
      ≡ queue_of (length xs + 1) (xs ++ j ∷ [])
unfolding insert_job_triplate
insert-full xs j k = ground (arith, length-append xs (j ∷ []))

-- Two controllers that have both seen the one free place of the waiting buffer, and stand before
-- their triplates: when one has run to its answer and then the other, the buffer holds the first
-- job and not the second, and both clients have been told that their jobs are submitted.
pub second_insertion_dropped :
    (i k : ℕ) (y : System) (xs : List JobTriplate)
    → i ≢ k
    → (y.controllers i).pc ≡ Controller.make_triplate
    → (y.controllers k).pc ≡ Controller.make_triplate
    → y.server.queue ≡ queue_of (length xs + 1) xs
    → length xs + 1 < 2 ^ 32
    → y.server.owner mutex_job_insertion ≡ none
    → let first = job_of y.server.jobs_entered (y.controllers i) in
      let second = job_of ((y.server.jobs_entered + 1) % 2 ^ 32) (y.controllers k) in
      Returns
        (run
          (controller_moves i (replicate 6 proceeds) ++ controller_moves k (replicate 6 proceeds))
          y)
        (λ z.
          (z.server.queue ≡ queue_of (length xs + 1) (xs ++ first ∷ []))
          × (z.server.sent ≡ y.server.sent ++ (submitted first ++ submitted second)))
second_insertion_dropped i k y xs ne at_i at_k room small free =
    let first = job_of y.server.jobs_entered (y.controllers i) in
    let second = job_of ((y.server.jobs_entered + 1) % 2 ^ 32) (y.controllers k) in
    let Mid : System → Type 0 =
      λ z. Submits y.server first z.server × (z.controllers k ≡ y.controllers k) in
    let End : System → Type 0 = λ z.
      (z.server.queue ≡ queue_of (length xs + 1) (xs ++ first ∷ []))
      × (z.server.sent ≡ y.server.sent ++ (submitted first ++ submitted second)) in
    run-then Mid End (controller_moves i (replicate 6 proceeds))
      (controller_moves k (replicate 6 proceeds)) y
      (controller-run (λ r. Submits y.server first r.0) Mid i (replicate 6 proceeds) y
        (submit-Submits i y.server (y.controllers i) at_i free)
        (λ r one. (one, update_other y.controllers i k r.1 (λ e. ne (sym e)))))
      (λ z mid.
        let one = mid.0 in
        let number : job_of z.server.jobs_entered (z.controllers k) ≡ second =
          ap (job_of z.server.jobs_entered) mid.1
          ∙ ap (λ n. job_of n (y.controllers k)) one.entered in
        controller-run (λ r. Submits z.server second r.0) End k (replicate 6 proceeds) z
          (subst
            (λ j.
              Returns (many (controller_at k) (replicate 6 proceeds) z.server (z.controllers k))
                (λ r. Submits z.server j r.0))
            number
            (submit-Submits k z.server (z.controllers k) (ap (λ c. c.pc) mid.1 ∙ at_k) one.free))
          (λ r two. (
            two.queue
                ∙ ap (insert_job_triplate second)
                    (one.queue ∙ ap (insert_job_triplate first) room ∙ insert-last xs first small)
                ∙ insert-full xs first second,
            two.sent
                ∙ ap (λ l. l ++ submitted second) one.sent
                ∙ append_assoc y.server.sent (submitted first) (submitted second),
          )))
