-- ===== src/Server/Controller.antt =====
-- src/Server/Threads/controllerThread.cpp: a controller thread serves one client and ends. Each step
-- is one statement that other threads can see or wait for, or a run of statements under a mutex.
use multithreaded_network_jo.Prelude.{
  ℕ, ◌+◌, ◌%◌, ◌^◌, Option, none, some, ◌++◌, true, ltb, if◌then◌else◌, Bytes, codes, to_string,
  Outcome, ok, blocked, fault, bad_size, ◌>>=◌, ℤ, pos, int_sub, ltb_ℤ, stoi, to_unsigned, to_int,
}
use multithreaded_network_jo.Commands.{
  CcMode, issue_job, set_concurrency, stop, poll, exit, invalid, JobTriplate,
  get_client_command_mode,
}
use multithreaded_network_jo.Tools.StringEditor.{remove_first_word, space}
use multithreaded_network_jo.Tools.WaitingBufferQueue.{
  get_size, insert_job_triplate, get_job_triplate, remove_job_triplate_by_id, at, is_full, is_empty,
}
use multithreaded_network_jo.Server.State
use multithreaded_network_jo.Server.State.{
  get_running_jobs, get_busy_workers, ThreadId, mutex_controller, mutex_worker, mutex_job_insertion,
  mutex_server_continue, mutex_all_jobs_done, cond_controller, cond_worker, cond_server_continue,
  cond_all_jobs_done, size, Server, lock, unlock, cond_wait, wake, signal, broadcast, c_str, send,
  send_size, send_text,
}
use multithreaded_network_jo.Server.Messages.{
  cancel_message, submit_message, level_message, poll_message, stop_message, removed_message,
  drain_message, exit_message,
}
use multithreaded_network_jo.Server.Choice.{
  Choice, receives, fails_to_receive, size_unusable, is_spurious,
}

-- Where a controller thread stands, with its live local variables.
pub data Pc : Type 0 where
  -- not created yet; created; through with its work
  unborn start receive finished : Pc
  -- the statements by which every handler but `terminateServer` begins
  continue_lock continue_set continue_unlock : Pc
  -- insertNewJobToBufferQueue
  full_lock full_check full_sleep full_wait full_stop_check cancel_respond cancel_text cancel_unlock
        full_unlock make_triplate :
      Pc
  insert_lock insert insert_unlock submit_respond submit_text : JobTriplate → Pc
  submit_signal : Pc
  -- setServerConcurrencyLevel
  set_level : Pc
  level_respond : Bytes → Pc
  level_text : Bytes → ℤ → Pc
  level_loop level_lock level_signal level_unlock : ℕ → ℤ → Pc
  -- sendWaitingJobsToClient
  poll_size : Pc
  poll_loop : ℕ → ℕ → Pc
  poll_text : ℕ → ℕ → JobTriplate → Pc
  -- removeJobFromBufferQueue
  stop_remove : Pc
  stop_respond stop_text : Bytes → Option JobTriplate → Pc
  stop_lock stop_notify : Option JobTriplate → Pc
  notify_size notify_text : JobTriplate → Pc
  stop_unlock : Pc
  -- terminateServer
  exit_flag exit_lock exit_broadcast exit_unlock drain_check drain_take : Pc
  drain_respond drain_text : JobTriplate → Pc
  jobs_lock jobs_check jobs_sleep jobs_wait jobs_unlock exit_respond exit_text exit_stop : Pc
  exit_continue_lock exit_continue_set exit_continue_unlock : Pc

-- `Controller::Thread`, with the program counter.
pub record Controller : Type 0 where
  pub client_socket : ℕ
  pub client_command : Bytes
  pub client_command_mode : CcMode
  pub pc : Pc

-- `executeTask`: where each mode's handler begins, and where it goes on behind its first statements.
abbrev pub entry : CcMode → Pc
entry issue_job = continue_lock
entry set_concurrency = continue_lock
entry stop = continue_lock
entry poll = continue_lock
entry exit = exit_flag
entry invalid = finished

abbrev pub handler : CcMode → Pc
handler issue_job = full_lock
handler set_concurrency = set_level
handler stop = stop_remove
handler poll = poll_size
handler exit = finished
handler invalid = finished

abbrev goto : Pc → Controller → Server → Outcome (Server × Controller)
goto pc c s = ok (s, record c { pc = pc })

-- `receiveClientCommandFromSocket`, and the dispatch of `executeTask`. Where a read fails the thread
-- goes on with the mode that its object happens to hold.
received : Choice → Server → Controller → Outcome (Server × Controller)
received (receives bytes) s c =
    let command = c_str bytes in
    let mode = get_client_command_mode command in
    ok (s, record c { client_command = command; client_command_mode = mode; pc = entry mode })
received size_unusable s c = fault bad_size
received (fails_to_receive mode) s c =
    ok (s, record c { client_command_mode = mode; pc = entry mode })
received _ s c = blocked

triplate_of : Server → Controller → JobTriplate
triplate_of s c = record {
  job_id = codes "job_" ++ to_string s.jobs_entered;
  job = remove_first_word c.client_command space;
  socket_id = c.client_socket;
}

-- Where a job was removed, a controller that waits is woken, and the client of the job gets a notice.
notify_removed : Option JobTriplate → Server → Controller → Outcome (Server × Controller)
notify_removed none s c = goto stop_unlock c s
notify_removed (some j) s c = goto (notify_size j) c (signal cond_controller s)

-- One step of the thread `t` at its program counter.
unfoldable pub step_at :
    Pc → Choice → ThreadId → Server → Controller → Outcome (Server × Controller)
unfolding received triplate_of notify_removed
step_at unborn ch t s c = blocked
step_at start ch t s c = ok (s, record c { client_socket = s.client_socket; pc = receive })
step_at receive ch t s c = received ch s c
step_at finished ch t s c = blocked
step_at continue_lock ch t s c = lock mutex_server_continue t s >>= goto continue_set c
step_at continue_set ch t s c =
    goto continue_unlock c (signal cond_server_continue (record s { continue_execution = true }))
step_at continue_unlock ch t s c =
    goto (handler c.client_command_mode) c (unlock mutex_server_continue s)
step_at full_lock ch t s c = lock mutex_controller t s >>= goto full_check c
step_at full_check ch t s c = if is_full s.queue then goto full_sleep c s else goto full_unlock c s
step_at full_sleep ch t s c = goto full_wait c (cond_wait cond_controller mutex_controller s)
step_at full_wait ch t s c =
    wake (is_spurious ch) cond_controller mutex_controller t s >>= goto full_stop_check c
step_at full_stop_check ch t s c =
    if s.controllers_should_stop then goto cancel_respond c s else goto full_check c s
step_at cancel_respond ch t s c = goto cancel_text c (send_size c.client_socket cancel_message s)
step_at cancel_text ch t s c = goto cancel_unlock c (send_text c.client_socket cancel_message s)
step_at cancel_unlock ch t s c = goto finished c (unlock mutex_controller s)
step_at full_unlock ch t s c = goto make_triplate c (unlock mutex_controller s)
step_at make_triplate ch t s c =
    let s' = record s { jobs_entered = (s.jobs_entered + 1) % 2 ^ 32 } in
    goto (insert_lock (triplate_of s' c)) c s'
step_at (insert_lock j) ch t s c = lock mutex_job_insertion t s >>= goto (insert j) c
step_at (insert j) ch t s c =
    goto (insert_unlock j) c (record s { queue = insert_job_triplate j s.queue })
step_at (insert_unlock j) ch t s c = goto (submit_respond j) c (unlock mutex_job_insertion s)
step_at (submit_respond j) ch t s c =
    goto (submit_text j) c (send_size j.socket_id (submit_message j) s)
step_at (submit_text j) ch t s c = goto submit_signal c (send_text j.socket_id (submit_message j) s)
step_at submit_signal ch t s c = goto finished c (signal cond_worker s)
step_at set_level ch t s c =
    let text = remove_first_word c.client_command space in
    stoi text >>= λ n. goto (level_respond text) c (State.set_concurrency (to_unsigned n) s)
step_at (level_respond text) ch t s c =
    stoi text >>= λ n. goto (level_text text n) c (send_size c.client_socket (level_message text) s)
step_at (level_text text n) ch t s c =
    goto (level_loop 0 n) c (send_text c.client_socket (level_message text) s)
step_at (level_loop i n) ch t s c = int_sub n (to_int (get_busy_workers s)) >>= λ room.
    if ltb_ℤ (pos i) room then goto (level_lock i n) c s else goto finished c s
step_at (level_lock i n) ch t s c = lock mutex_worker t s >>= goto (level_signal i n) c
step_at (level_signal i n) ch t s c = goto (level_unlock i n) c (signal cond_worker s)
step_at (level_unlock i n) ch t s c = goto (level_loop (i + 1) n) c (unlock mutex_worker s)
step_at poll_size ch t s c =
    goto (poll_loop 0 (get_size s.queue)) c (send c.client_socket (size (get_size s.queue)) s)
step_at (poll_loop i n) ch t s c =
    if ltb i n
    then (at i s.queue >>= λ j.
        goto (poll_text i n j) c (send_size c.client_socket (poll_message j) s))
    else goto finished c s
step_at (poll_text i n j) ch t s c =
    goto (poll_loop ((i + 1) % 2 ^ 32) n) c (send_text c.client_socket (poll_message j) s)
step_at stop_remove ch t s c =
    let given = remove_first_word c.client_command space in
    remove_job_triplate_by_id given s.queue >>= λ r.
    goto (stop_respond given r.0) c (record s { queue = r.1 })
step_at (stop_respond given found) ch t s c =
    goto (stop_text given found) c (send_size c.client_socket (stop_message given found) s)
step_at (stop_text given found) ch t s c =
    goto (stop_lock found) c (send_text c.client_socket (stop_message given found) s)
step_at (stop_lock found) ch t s c = lock mutex_controller t s >>= goto (stop_notify found) c
step_at (stop_notify found) ch t s c = notify_removed found s c
step_at (notify_size j) ch t s c = goto (notify_text j) c (send_size j.socket_id removed_message s)
step_at (notify_text j) ch t s c = goto stop_unlock c (send_text j.socket_id removed_message s)
step_at stop_unlock ch t s c = goto finished c (unlock mutex_controller s)
step_at exit_flag ch t s c = goto exit_lock c (record s { controllers_should_stop = true })
step_at exit_lock ch t s c = lock mutex_controller t s >>= goto exit_broadcast c
step_at exit_broadcast ch t s c = goto exit_unlock c (broadcast cond_controller s)
step_at exit_unlock ch t s c = goto drain_check c (unlock mutex_controller s)
step_at drain_check ch t s c = if is_empty s.queue then goto jobs_lock c s else goto drain_take c s
step_at drain_take ch t s c =
    get_job_triplate s.queue >>= λ r. goto (drain_respond r.0) c (record s { queue = r.1 })
step_at (drain_respond j) ch t s c = goto (drain_text j) c (send_size j.socket_id drain_message s)
step_at (drain_text j) ch t s c = goto drain_check c (send_text j.socket_id drain_message s)
step_at jobs_lock ch t s c = lock mutex_all_jobs_done t s >>= goto jobs_check c
step_at jobs_check ch t s c =
    if ltb 0 (get_running_jobs s) then goto jobs_sleep c s else goto jobs_unlock c s
step_at jobs_sleep ch t s c = goto jobs_wait c (cond_wait cond_all_jobs_done mutex_all_jobs_done s)
step_at jobs_wait ch t s c =
    wake (is_spurious ch) cond_all_jobs_done mutex_all_jobs_done t s >>= goto jobs_check c
step_at jobs_unlock ch t s c = goto exit_respond c (unlock mutex_all_jobs_done s)
step_at exit_respond ch t s c = goto exit_text c (send_size c.client_socket exit_message s)
step_at exit_text ch t s c = goto exit_stop c (send_text c.client_socket exit_message s)
step_at exit_stop ch t s c = goto exit_continue_lock c (record s { should_stop = true })
step_at exit_continue_lock ch t s c = lock mutex_server_continue t s >>= goto exit_continue_set c
step_at exit_continue_set ch t s c =
    goto exit_continue_unlock c
      (signal cond_server_continue (record s { continue_execution = true }))
step_at exit_continue_unlock ch t s c = goto finished c (unlock mutex_server_continue s)

unfoldable pub controller_step :
    Choice → ThreadId → Server → Controller → Outcome (Server × Controller)
unfolding step_at
controller_step ch t s c = step_at c.pc ch t s c
