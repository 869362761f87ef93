-- ===== src/Tests/Threads.antt =====
-- The theorems about interleavings, at states that a run reaches.
use multithreaded_network_jo.Prelude.{
  ◌≤◌, ◌<◌, ◌^◌, ◌-◌, ◌≡◌, ◌≢◌, refl, subst, arith, true, Outcome, ok, ◌>>=◌, ℕ, suc, fault, none,
  replicate, foreign_unlock,
}
use multithreaded_network_jo.Server.State.{
  main_thread, worker_thread, mutex_server_continue, Server, lock,
}
use multithreaded_network_jo.Server.Choice.{spawn_fails, proceeds}
use multithreaded_network_jo.Server.Worker
use multithreaded_network_jo.Server.Worker.{worker_step}
use multithreaded_network_jo.Server.System.{
  System, Reach, run, start, initial, thread_step, join, clean_up, returned,
}
use multithreaded_network_jo.Server.Runs.{run-Reach}
use multithreaded_network_jo.Server.Locks.Exclusion.{mutual_exclusion}
use multithreaded_network_jo.Server.Locks.Exclusion.Stopping.{
  stopping_worker_faults, run_never_returns,
}
use multithreaded_network_jo.Server.Locks.Release.{Proceeds, mutex_given_up}
use multithreaded_network_jo.Server.Answers.{sent_to}
use multithreaded_network_jo.Server.Answers.Stray.{Reach-no_stray_packets}
use multithreaded_network_jo.Server.Handshake.{awaits}
use multithreaded_network_jo.Server.Handshake.Sockets.{Reach-client_socket}
use multithreaded_network_jo.Server.Handshake.Blocked.{
  WaitsForInvalid, rest, invalid_command_blocks,
}
use multithreaded_network_jo.Server.Counters.Running.{refused_process_underflows}
use multithreaded_network_jo.Tests.Scenario.{
  end_of, one_job, job_running, job_running-run, invalid_client, invalid_client-run, main_locked,
  main_locked-run, worker_stopping, worker_stopping-run,
}
use multithreaded_network_jo.Tests.Tools.{job_1}

abbrev job_running-steps : (z : System) × Reach 2 1 z × (z ≡ job_running)
job_running-steps = run-Reach one_job (start refl) job_running-run

job_running-Reach : Reach 2 1 job_running
job_running-Reach = subst (Reach 2 1) job_running-steps.2 job_running-steps.1

invalid_client-Reach : Reach 2 1 invalid_client
invalid_client-Reach =
    let r = run-Reach _ (start refl) invalid_client-run in subst (Reach 2 1) r.2 r.1

main_locked-Reach : Reach 2 1 main_locked
main_locked-Reach = let r = run-Reach _ (start refl) main_locked-run in subst (Reach 2 1) r.2 r.1

mutual_exclusion_example : main_thread ≡ main_thread
unfolding end_of
mutual_exclusion_example =
    mutual_exclusion main_locked-Reach mutex_server_continue main_thread main_thread refl refl

mutex_given_up_example :
    (j : ℕ) × (j ≤ 4)
    × Proceeds
        (run (replicate j (main_thread, proceeds)) main_locked)
        (λ z. z.server.owner mutex_server_continue ≡ none)
unfolding end_of
mutex_given_up_example =
    mutex_given_up main_locked-Reach main_thread proceeds mutex_server_continue refl

Reach-client_socket_example :
    (invalid_client.controllers 0).client_socket ≡ invalid_client.accepted_socket 0
unfolding end_of
Reach-client_socket_example = Reach-client_socket invalid_client-Reach 0 (omega arith) (λ e. cc)

-- The controller of the invalid command has ended, and the main thread waits for it.
invalid_client-WaitsForInvalid : WaitsForInvalid 0 invalid_client
unfolding end_of
invalid_client-WaitsForInvalid = record { last = refl; waits = refl; ended = refl; mode = refl }

invalid_command_blocks_example :
    (awaits invalid_client.main ≡ true) × (invalid_client.accepted ≡ invalid_client.accepted)
invalid_command_blocks_example =
    invalid_command_blocks 0 {x = invalid_client} {y = invalid_client} invalid_client-Reach
      invalid_client-WaitsForInvalid (rest refl)

job_running-busy : job_running.server.busy_workers ≡ 1
unfolding end_of
job_running-busy = refl

-- A worker that executes its job where none is running, and is refused the process.
abbrev before_refusal : Server
before_refusal = (initial 2 1).server

refusal : Server × Worker.Pc → Outcome (Server × Worker.Pc)
unfolding worker_step initial lock
refusal r = worker_step r.1 proceeds (worker_thread 0) r.0

abbrev after_refusal : Outcome (Server × Worker.Pc)
after_refusal =
    worker_step (Worker.execute job_1) spawn_fails (worker_thread 0) before_refusal
    >>= refusal
    >>= refusal

abbrev refused_server : Server
refused_server = elim after_refusal [ ok r ↦ r.0 | _ ↦ before_refusal ]

refused_process_underflows_example : refused_server.running_jobs ≡ 2 ^ 32 - 1
unfolding refusal
refused_process_underflows_example =
    refused_process_underflows job_1 proceeds proceeds (worker_thread 0) before_refusal refl refl
      refl refl

worker_stopping-Reach : Reach 2 1 worker_stopping
worker_stopping-Reach =
    let r = run-Reach _ (start refl) worker_stopping-run in subst (Reach 2 1) r.2 r.1

stopping_worker_faults_example :
    thread_step (worker_thread 0) proceeds worker_stopping ≡ fault foreign_unlock
unfolding end_of
stopping_worker_faults_example = stopping_worker_faults worker_stopping-Reach 0 proceeds refl

run_never_returns_example :
    ((i : ℕ) → worker_stopping.workers i ≢ Worker.exited)
    × ((i : ℕ) → worker_stopping.main ≢ join (suc i))
    × (worker_stopping.main ≢ clean_up)
    × (worker_stopping.main ≢ returned true)
run_never_returns_example = run_never_returns worker_stopping-Reach (omega arith)

-- Socket 8 is not the socket of the one client.
no_client_at_8 : (i : ℕ) → i < job_running.accepted → job_running.accepted_socket i ≢ 8
unfolding end_of
no_client_at_8 i lt = ground arith

Reach-no_stray_packets_example : sent_to 8 job_running.server.sent ≡ 0
Reach-no_stray_packets_example = Reach-no_stray_packets job_running-Reach 8 no_client_at_8
