-- ===== src/Tests/Handlers.antt =====
-- The handlers of src/Server/Threads/controllerThread.cpp at concrete commands.
use multithreaded_network_jo.Prelude.{
  true, ◌+◌, ◌*◌, ◌≡◌, ◌++◌, ◌∷◌, [], arith, codes, none, length,
}
use multithreaded_network_jo.Commands.{stop, poll}
use multithreaded_network_jo.Tools.StringEditor.{remove_first_word, space}
use multithreaded_network_jo.Tools.WaitingBufferQueue.Fifo.{extract}
use multithreaded_network_jo.Tools.WaitingBufferQueue.Search.{queue_of}
use multithreaded_network_jo.Server.State.{controller_thread, MutexName, size}
use multithreaded_network_jo.Server.Controller
use multithreaded_network_jo.Server.Handlers.{solo, Returns, begins}
use multithreaded_network_jo.Server.Handlers.Stop.{stop_messages, stop_moves, stop_removes}
use multithreaded_network_jo.Server.Handlers.Poll.{job_messages, poll_lists}
use multithreaded_network_jo.Tests.Tools.{job_1, job_2}
use multithreaded_network_jo.Tests.Scenario.{idle_server, idle_server-Free}

stop_removes_example :
    let given = remove_first_word (codes "stop job_2") space in
    let found = extract given (job_1 ∷ job_2 ∷ []) in
    Returns
      (solo
        (stop_moves found.0)
        (controller_thread 0)
        (record idle_server { queue = queue_of 2 (job_1 ∷ job_2 ∷ []) })
        (begins 9 (codes "stop job_2") stop))
      (λ r. record {
        ended : r.1.pc ≡ Controller.finished;
        removed : r.0.queue ≡ queue_of 2 found.1;
        told : r.0.sent ≡ idle_server.sent ++ stop_messages 9 given found.0;
        goes_on : r.0.continue_execution ≡ true;
        counters :
            (r.0.running_jobs ≡ idle_server.running_jobs)
            × (r.0.busy_workers ≡ idle_server.busy_workers)
            × (r.0.concurrency ≡ idle_server.concurrency)
            × (r.0.jobs_entered ≡ idle_server.jobs_entered);
        free : (m : MutexName) → r.0.owner m ≡ none;
      })
stop_removes_example =
    stop_removes (controller_thread 0) idle_server 2 9 (job_1 ∷ job_2 ∷ []) (codes "stop job_2")
      idle_server-Free (omega arith)

poll_lists_example :
    Returns
      (solo
        (5 + 2 * length (job_1 ∷ job_2 ∷ []))
        (controller_thread 0)
        (record idle_server { queue = queue_of 2 (job_1 ∷ job_2 ∷ []) })
        (begins 9 (codes "poll") poll))
      (λ r.
        (r.1.pc ≡ Controller.finished)
        × (r.0.queue ≡ queue_of 2 (job_1 ∷ job_2 ∷ []))
        × (r.0.sent ≡ idle_server.sent ++ (9, size 2) ∷ job_messages 9 (job_1 ∷ job_2 ∷ [])))
poll_lists_example =
    poll_lists (controller_thread 0) idle_server 2 9 (job_1 ∷ job_2 ∷ []) (codes "poll")
      idle_server-Free (omega arith)
