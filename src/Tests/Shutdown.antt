-- ===== src/Tests/Shutdown.antt =====
-- The end of the server, at states that a run reaches.
use multithreaded_network_jo.Prelude.{
  ◌≡◌, ◌++◌, refl, subst, List, [], ◌∷◌, none, some, false, ok, fault, destroys_used, ◌⊎◌, ◌↔◌,
}
use multithreaded_network_jo.Server.State.{ThreadId, main_thread, CondName}
use multithreaded_network_jo.Server.Choice.{Choice, creates, accept_fails}
use multithreaded_network_jo.Server.System.{System, Reach, start, run, initial, returned}
use multithreaded_network_jo.Server.Runs.{run-Reach}
use multithreaded_network_jo.Server.Locks.{holds}
use multithreaded_network_jo.Server.Handlers.{Returns}
use multithreaded_network_jo.Server.Shutdown.{destroy, waits}
use multithreaded_network_jo.Server.Shutdown.Destroyed.{destroy_defined_iff}
use multithreaded_network_jo.Server.Startup.{main_ends}
use multithreaded_network_jo.Server.Startup.Ended.{accept_failure_undefined}
use multithreaded_network_jo.Tests.Scenario.{end_of, main_moves, worker_moves}

-- The worker waits for a job, and the main thread for a client.
abbrev no_client : List (ThreadId × Choice)
no_client = (main_thread, creates) ∷ main_moves 2 ++ worker_moves 3

abbrev nobody_there : System
nobody_there = end_of no_client

nobody_there-run : run no_client (initial 2 1) ≡ ok nobody_there
unfolding end_of
nobody_there-run = refl

nobody_there-Reach : Reach 2 1 nobody_there
nobody_there-Reach = let r = run-Reach _ (start refl) nobody_there-run in subst (Reach 2 1) r.2 r.1

destroy_defined_iff_example :
    ((destroy nobody_there.server ≡ ok nobody_there.server)
      ⊎ (destroy nobody_there.server ≡ fault destroys_used))
    × ((destroy nobody_there.server ≡ ok nobody_there.server) ↔ (
        (t : ThreadId)
        → (holds nobody_there t ≡ none) × ((v : CondName) → waits v nobody_there t ≡ 0)))
destroy_defined_iff_example = destroy_defined_iff nobody_there-Reach

accept_failure_undefined_example :
    Returns (run ((main_thread, accept_fails) ∷ []) nobody_there) (λ z.
      (z.main ≡ returned false) × (main_ends (some (8080, initial 2 1)) z ≡ fault destroys_used))
unfolding end_of
accept_failure_undefined_example =
    accept_failure_undefined (8080, initial 2 1) nobody_there-Reach 0 refl refl
