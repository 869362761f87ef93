-- ===== src/Server/System.antt =====
-- `Process::init` and `Process::run` of src/Server/server.cpp, and all threads together: the main
-- thread, the workers, and one controller thread for each client accepted.
use multithreaded_network_jo.Prelude.{
  ℕ, suc, ◌+◌, Option, none, List, [], ◌∷◌, Bool, false, ◌==◌, ltb, ◌≡◌, if◌then◌else◌, Outcome, ok,
  blocked, ◌>>=◌,
}
use multithreaded_network_jo.Commands.{invalid}
use multithreaded_network_jo.Server.State.{
  MutexName, CondName, CondVar, ThreadId, main_thread, controller_thread, worker_thread,
  mutex_server_continue, mutex_worker, cond_server_continue, cond_worker, Server, lock, unlock,
  cond_wait, wake, broadcast,
}
use multithreaded_network_jo.Server.Choice.{
  Choice, accepts, accept_fails, creates, create_fails, cleans_up, is_spurious,
}
use multithreaded_network_jo.Server.Controller
use multithreaded_network_jo.Server.Controller.{Controller, controller_step}
use multithreaded_network_jo.Server.Worker
use multithreaded_network_jo.Server.Worker.{worker_step}

-- Where the main thread stands in `run`; `returned` holds the answer of `run`.
pub data MainPc : Type 0 where
  spawn_worker : ℕ → MainPc
  listen accept close_flag create_controller : MainPc
  wait_lock wait_check wait_wait wait_unlock : MainPc
  stop_lock stop_broadcast stop_unlock : MainPc
  join : ℕ → MainPc
  clean_up : MainPc
  returned : Bool → MainPc

-- Controllers are numbered in the order of their creation, and `accepted` is their number.
-- `accepted_socket` is no variable of the program: it records which socket each one was created for.
pub record System : Type 0 where
  pub server : Server
  pub main : MainPc
  pub accepted : ℕ
  pub accepted_socket : ℕ → ℕ
  pub controllers : ℕ → Controller
  pub workers : ℕ → Worker.Pc

abbrev pub update {ℓ} : {A : Type ℓ} → (ℕ → A) → ℕ → A → ℕ → A
update f i a j = if i == j then a else f j

abbrev goto : MainPc → System → Outcome System
goto pc y = ok (record y { main = pc })

abbrev goto_with : MainPc → System → Server → Outcome System
goto_with pc y s = ok (record y { main = pc; server = s })

abbrev pub unborn_controller : Controller
unborn_controller = record {
  client_socket = 0;
  client_command = [];
  client_command_mode = invalid;
  pc = Controller.unborn;
}

spawns_worker : ℕ → Choice → System → Outcome System
spawns_worker i creates y =
    ok (record y { main = spawn_worker (i + 1); workers = update y.workers i Worker.idle_lock })
spawns_worker i create_fails y = goto (returned false) y
spawns_worker i _ y = blocked

accepts_client : Choice → System → Outcome System
accepts_client (accepts socket) y =
    goto_with close_flag y (record (y.server) { client_socket = socket })
accepts_client accept_fails y = goto (returned false) y
accepts_client _ y = blocked

creates_controller : Choice → System → Outcome System
creates_controller creates y = ok (record y {
  main = wait_lock;
  accepted = suc y.accepted;
  accepted_socket = update y.accepted_socket y.accepted y.server.client_socket;
  controllers =
      update y.controllers y.accepted (record unborn_controller { pc = Controller.start });
})
creates_controller create_fails y = goto (returned false) y
creates_controller _ y = blocked

-- `pthread_join`
joins : ℕ → Worker.Pc → System → Outcome System
joins i Worker.exited y = goto (join (i + 1)) y
joins i _ y = blocked

cleans : Choice → System → Outcome System
cleans (cleans_up done) y = goto (returned done) y
cleans _ y = blocked

-- One step of the main thread at its place in `run`.
unfoldable pub main_step_at : MainPc → Choice → System → Outcome System
unfolding spawns_worker accepts_client creates_controller joins cleans
main_step_at (spawn_worker i) ch y =
    if ltb i y.server.thread_pool_size then spawns_worker i ch y else goto listen y
main_step_at listen ch y = if y.server.should_stop then goto stop_lock y else goto accept y
main_step_at accept ch y = accepts_client ch y
main_step_at close_flag ch y =
    goto_with create_controller y (record (y.server) { continue_execution = false })
main_step_at create_controller ch y = creates_controller ch y
main_step_at wait_lock ch y =
    lock mutex_server_continue main_thread y.server >>= goto_with wait_check y
main_step_at wait_check ch y =
    if y.server.continue_execution
    then goto wait_unlock y
    else goto_with wait_wait y (cond_wait cond_server_continue mutex_server_continue y.server)
main_step_at wait_wait ch y =
    wake (is_spurious ch) cond_server_continue mutex_server_continue main_thread y.server
    >>= goto_with wait_check y
main_step_at wait_unlock ch y = goto_with listen y (unlock mutex_server_continue y.server)
main_step_at stop_lock ch y = lock mutex_worker main_thread y.server >>= goto_with stop_broadcast y
main_step_at stop_broadcast ch y = goto_with stop_unlock y (broadcast cond_worker y.server)
main_step_at stop_unlock ch y = goto_with (join 0) y (unlock mutex_worker y.server)
main_step_at (join i) ch y =
    if ltb i y.server.thread_pool_size then joins i (y.workers i) y else goto clean_up y
main_step_at clean_up ch y = cleans ch y
main_step_at (returned answer) ch y = blocked

unfoldable pub main_step : Choice → System → Outcome System
unfolding main_step_at
main_step ch y = main_step_at y.main ch y

-- One step of any thread.
unfoldable pub thread_step : ThreadId → Choice → System → Outcome System
thread_step main_thread ch y = main_step ch y
thread_step (controller_thread i) ch y =
    controller_step ch (controller_thread i) y.server (y.controllers i) >>= λ r.
    ok (record y { server = r.0; controllers = update y.controllers i r.1 })
thread_step (worker_thread i) ch y =
    worker_step (y.workers i) ch (worker_thread i) y.server >>= λ r.
    ok (record y { server = r.0; workers = update y.workers i r.1 })

-- `initializeServerMutexes` and `initializeServerConditionVariables`.
abbrev pub initialized_mutexes : MutexName → Option ThreadId
initialized_mutexes m = none

abbrev pub initialized_condition_variables : CondName → CondVar
initialized_condition_variables c = record { waiting = 0; wakeups = 0 }

-- `init`, behind the initial values of the static members: no mutex is taken, nobody waits. The flag
-- `continueExecution` is static, hence false.
unfoldable pub initial : ℕ → ℕ → System
initial buffer_size thread_pool_size = record {
  server = record {
    queue = record { capacity = buffer_size; size = 0; buffer = [] };
    thread_pool_size = thread_pool_size;
    running_jobs = 0;
    busy_workers = 0;
    concurrency = 1;
    should_stop = false;
    continue_execution = false;
    controllers_should_stop = false;
    jobs_entered = 0;
    client_socket = 0;
    owner = initialized_mutexes;
    cond = initialized_condition_variables;
    sent = [];
  };
  main = spawn_worker 0;
  accepted = 0;
  accepted_socket = λ _. 0;
  controllers = λ _. unborn_controller;
  workers = λ _. Worker.unborn;
}

-- The states that some interleaving of the threads leads to.
pub data Reach (buffer_size thread_pool_size : ℕ) : System → Type 0 where
  start :
      {y : System} → y ≡ initial buffer_size thread_pool_size → Reach buffer_size thread_pool_size y
  next :
      {x y : System} (t : ThreadId) (ch : Choice)
      → Reach buffer_size thread_pool_size x
      → thread_step t ch x ≡ ok y
      → Reach buffer_size thread_pool_size y

-- A run by a schedule: which thread moves, and what the environment answers it.
unfoldable pub run : List (ThreadId × Choice) → System → Outcome System
run [] y = ok y
run ((t, ch) ∷ moves) y = thread_step t ch y >>= run moves
