-- ===== src/Server/Handlers/Issue.antt =====
-- The `issueJob` command: `insertNewJobToBufferQueue`.
use multithreaded_network_jo.Prelude.{
  ℕ, ◌+◌, ◌%◌, ◌<◌, ◌^◌, ◌≡◌, arith, List, [], ◌∷◌, ◌++◌, none, true, Bytes, codes, length,
  length-append, to_string,
}
use multithreaded_network_jo.Commands.{JobTriplate, issue_job}
use multithreaded_network_jo.Tools.StringEditor.{remove_first_word, space}
use multithreaded_network_jo.Tools.WaitingBufferQueue.{insert_job_triplate}
use multithreaded_network_jo.Tools.WaitingBufferQueue.Search.{queue_of}
use multithreaded_network_jo.Server.State.{
  ThreadId, mutex_server_continue, mutex_controller, mutex_job_insertion, MutexName, Server, lock,
  unlock, signal, send_message, cond_wait, cond_controller, wake,
}
use multithreaded_network_jo.Server.Messages.{cancel_message}
use multithreaded_network_jo.Server.Controller
use multithreaded_network_jo.Server.Controller.{Controller, controller_step, step_at}
use multithreaded_network_jo.Server.Handlers.{solo, Returns, Free, message, send_all-append, begins}

-- The triplate of the next job.
abbrev pub next_job : ℕ → ℕ → Bytes → JobTriplate
next_job entered socket command = record {
  job_id = codes "job_" ++ to_string ((entered + 1) % 2 ^ 32);
  job = remove_first_word command space;
  socket_id = socket;
}

-- The server and the controller behind a submission.
abbrev pub Submitted : ℕ → List JobTriplate → JobTriplate → Server → Server × Controller → Type 0
Submitted n xs j s r = record {
  ended : r.1.pc ≡ Controller.finished;
  inserted : r.0.queue ≡ queue_of n (xs ++ j ∷ []);
  told :
      r.0.sent
      ≡ s.sent
        ++ message j.socket_id
            (codes "JOB <" ++ j.job_id ++ codes ", " ++ j.job ++ codes "> SUBMITTED");
  entered : r.0.jobs_entered ≡ (s.jobs_entered + 1) % 2 ^ 32;
  goes_on : r.0.continue_execution ≡ true;
  free : (m : MutexName) → r.0.owner m ≡ none;
}

-- The controller waits for room in the buffer with the jobs `xs`.
abbrev pub AtFull : ℕ → ℕ → List JobTriplate → Server → Server × Controller → Type 0
AtFull n socket xs s r = record {
  waits : r.1.pc ≡ Controller.full_wait;
  answers : r.1.client_socket ≡ socket;
  untouched : r.0.queue ≡ queue_of n xs;
  silent : r.0.sent ≡ s.sent;
  entered : r.0.jobs_entered ≡ s.jobs_entered;
  running : r.0.running_jobs ≡ s.running_jobs;
  counted : (r.0.cond cond_controller).waiting ≡ (s.cond cond_controller).waiting + 1;
  goes_on : r.0.continue_execution ≡ true;
  free : (m : MutexName) → r.0.owner m ≡ none;
}

-- A controller that is woken while it waits, when the controllers are to stop, is through.
abbrev pub Cancelled : Server → Controller → Server × Controller → Type 0
Cancelled s c r = record {
  ended : r.1.pc ≡ Controller.finished;
  queue : r.0.queue ≡ s.queue;
  entered : r.0.jobs_entered ≡ s.jobs_entered;
  told : r.0.sent ≡ s.sent ++ message c.client_socket cancel_message;
  free : (m : MutexName) → r.0.owner m ≡ none;
}

pub waiting-Cancelled :
    (t : ThreadId) (s : Server) (c : Controller)
    → c.pc ≡ Controller.full_wait
    → Free s
    → s.controllers_should_stop ≡ true
    → 0 < (s.cond cond_controller).waiting
    → 0 < (s.cond cond_controller).wakeups
    → Returns (solo 5 t s c) (Cancelled s c)
unfolding solo controller_step step_at lock unlock wake
waiting-Cancelled t s c at_wait free stops some_wait some_woken = ground (
  arith,
  free mutex_controller,
  free,
  send_all-append s.sent (message c.client_socket cancel_message),
)

-- An `issueJob` command where the waiting buffer has room, with no other thread moving and no mutex
-- taken: the controller ends; the job stands at the end of the buffer under the next identifier,
-- with the client's socket, and the client is told that identifier and the job. The main thread may
-- go on, and no mutex stays taken.
pub issue_job_submits :
    (t : ThreadId) (s : Server) (n socket : ℕ) (xs : List JobTriplate) (command : Bytes)
    → Free s
    → length xs < n
    → n < 2 ^ 32
    → let j = next_job s.jobs_entered socket command in
      Returns
        (solo 13 t (record s { queue = queue_of n xs }) (begins socket command issue_job))
        (Submitted n xs j s)
unfolding solo controller_step step_at lock unlock signal send_message insert_job_triplate
issue_job_submits t s n socket xs command free room small =
    let j = next_job s.jobs_entered socket command in
    ground (
      arith,
      free mutex_server_continue,
      free mutex_controller,
      free mutex_job_insertion,
      free,
      length-append xs (j ∷ []),
      send_all-append s.sent (
          message socket (codes "JOB <" ++ j.job_id ++ codes ", " ++ j.job ++ codes "> SUBMITTED")),
    )

-- An `issueJob` command where the waiting buffer is full, with no other thread moving and no mutex
-- taken: the controller lets the main thread go on and waits with no mutex taken; it has not touched
-- the buffer nor given out an identifier nor sent anything.
pub issue_job_waits :
    (t : ThreadId) (s : Server) (n socket : ℕ) (xs : List JobTriplate) (command : Bytes)
    → Free s
    → length xs ≡ n
    → Returns
        (solo 6 t (record s { queue = queue_of n xs }) (begins socket command issue_job))
        (AtFull n socket xs s)
unfolding solo controller_step step_at lock unlock signal cond_wait
issue_job_waits t s n socket xs command free full =
    ground (arith, free mutex_server_continue, free mutex_controller, free)
