-- ===== src/Tests/Races.antt =====
-- The orders of moves in src/Server in which a job is dropped or taken twice, from states that a run
-- reaches.
use multithreaded_network_jo.Prelude.{
  ◌+◌, ◌≡◌, ◌%◌, ◌^◌, ◌++◌, refl, subst, arith, List, [], ◌∷◌, codes, replicate, ok, fault,
  empty_front, same_text,
}
use multithreaded_network_jo.Tools.WaitingBufferQueue.Search.{queue_of}
use multithreaded_network_jo.Server.State.{
  ThreadId, main_thread, controller_thread, lock, c_str, cond_wait, signal,
}
use multithreaded_network_jo.Server.Choice.{Choice, proceeds, creates, accepts, receives}
use multithreaded_network_jo.Server.System.{
  System, Reach, start, run, initial, thread_step, main_step,
}
use multithreaded_network_jo.Commands.{get_client_command_mode}
use multithreaded_network_jo.Tools.StringEditor.{get_first_word, find}
use multithreaded_network_jo.Tools.WaitingBufferQueue.{insert_job_triplate, get_job_triplate}
use multithreaded_network_jo.Server.Controller.{controller_step}
use multithreaded_network_jo.Server.Worker.{worker_step}
use multithreaded_network_jo.Server.Runs.{run-Reach}
use multithreaded_network_jo.Server.Orderly.{Orderly, OneAtATime}
use multithreaded_network_jo.Server.Orderly.Apart.{buffer_kept}
use multithreaded_network_jo.Tools.WaitingBufferQueue.Valid.{IsValid}
use multithreaded_network_jo.Server.Orderly.Schedules.{
  is_calm_run, initial-Undisturbed, run-Orderly,
}
use multithreaded_network_jo.Server.Handlers.{Returns}
use multithreaded_network_jo.Server.Races.{worker_moves, controller_moves}
use multithreaded_network_jo.Server.Races.Removal.{second_removal_faults}
use multithreaded_network_jo.Server.Races.Insertion.{job_of, submitted, second_insertion_dropped}
use multithreaded_network_jo.Tests.Scenario.{
  end_from, main_moves, client_moves, one_client, one_job, job_running, job_running-run,
}

-- Two workers and one client, whose job both workers have seen.
abbrev both_see : List (ThreadId × Choice)
both_see =
    ((main_thread, creates) ∷ [])
    ++ (one_client (codes "issueJob ls")
        ++ (client_moves 0 13
            ++ (worker_moves 0 (replicate 3 proceeds) ++ worker_moves 1 (replicate 3 proceeds))))

abbrev both_after : System
both_after = end_from 2 2 both_see

both_after-run : run both_see (initial 2 2) ≡ ok both_after
unfolding end_from
both_after-run = refl

both_after-Reach : Reach 2 2 both_after
both_after-Reach = let r = run-Reach _ (start refl) both_after-run in subst (Reach 2 2) r.2 r.1

second_removal_faults_example :
    run (worker_moves 0 (replicate 3 proceeds) ++ worker_moves 1 (replicate 2 proceeds)) both_after
    ≡ fault empty_front
unfolding end_from
second_removal_faults_example =
    second_removal_faults 0 1 both_after _ (omega arith) refl refl refl refl

-- Two clients, whose controllers have both seen the one free place.
abbrev both_find : List (ThreadId × Choice)
both_find =
    one_client (codes "issueJob ls")
    ++ (client_moves 0 6
        ++ (main_moves 4
            ++ ((main_thread, accepts 8)
                ∷ (main_thread, proceeds)
                ∷ (main_thread, creates)
                ∷ (controller_thread 1, proceeds)
                ∷ (controller_thread 1, receives (codes "issueJob date"))
                ∷ client_moves 1 6)))

abbrev both_inside : System
both_inside = end_from 1 1 both_find

both_inside-run : run both_find (initial 1 1) ≡ ok both_inside
unfolding end_from
both_inside-run = refl

both_inside-Reach : Reach 1 1 both_inside
both_inside-Reach = let r = run-Reach _ (start refl) both_inside-run in subst (Reach 1 1) r.2 r.1

second_insertion_dropped_example :
    Returns
      (run
        (controller_moves 0 (replicate 6 proceeds) ++ controller_moves 1 (replicate 6 proceeds))
        both_inside)
      (λ z.
        (z.server.queue
          ≡ queue_of 1 (job_of both_inside.server.jobs_entered (both_inside.controllers 0) ∷ []))
        × (z.server.sent
            ≡ both_inside.server.sent
              ++ (submitted (job_of both_inside.server.jobs_entered (both_inside.controllers 0))
                  ++ submitted (
                      job_of
                        ((both_inside.server.jobs_entered + 1) % 2 ^ 32)
                        (both_inside.controllers 1)))))
unfolding end_from
second_insertion_dropped_example =
    second_insertion_dropped 0 1 both_inside [] (omega arith) refl refl refl (omega arith) refl

abbrev job_running-steps : (z : System) × Reach 2 1 z × (z ≡ job_running)
job_running-steps = run-Reach one_job (start refl) job_running-run

job_running-Orderly : Orderly job_running-steps.1
unfolding is_calm_run initial thread_step main_step lock controller_step get_client_command_mode
    same_text get_first_word find c_str cond_wait signal worker_step insert_job_triplate
    get_job_triplate
job_running-Orderly =
    run-Orderly one_job (start refl) job_running-run (initial-Undisturbed 2 1) refl

buffer_kept_example : IsValid 2 job_running-steps.0.server.queue × OneAtATime job_running-steps.0
buffer_kept_example = buffer_kept job_running-steps.1 job_running-Orderly (omega arith)
