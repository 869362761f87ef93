-- ===== src/Server/State.antt =====
-- The data that the threads of src/Server/server.cpp share: the static members of the server process,
-- of the controller threads and of the waiting buffer, the mutexes, the condition variables, and what
-- has been sent to the clients.
use multithreaded_network_jo.Prelude.{
  ℕ, ◌+◌, ◌-◌, ◌%◌, ◌^◌, Option, none, some, List, [], ◌∷◌, ◌++◌, Bool, true, false, ◌&&◌, ◌||◌,
  ◌==◌, ltb, if◌then◌else◌, Bytes, length, Outcome, ok, blocked, fault, foreign_unlock,
}
use multithreaded_network_jo.Tools.WaitingBufferQueue.{Queue}

pub data ThreadId : Type 0 where
  main_thread : ThreadId
  controller_thread worker_thread : ℕ → ThreadId

pub data MutexName : Type 0 where
  mutex_controller mutex_worker mutex_job_insertion mutex_server_continue mutex_all_jobs_done :
      MutexName

pub data CondName : Type 0 where
  cond_controller cond_worker cond_server_continue cond_all_jobs_done : CondName

abbrev pub same_thread : ThreadId → ThreadId → Bool
same_thread main_thread main_thread = true
same_thread (controller_thread i) (controller_thread j) = i == j
same_thread (worker_thread i) (worker_thread j) = i == j
same_thread _ _ = false

abbrev pub same_mutex : MutexName → MutexName → Bool
same_mutex mutex_controller mutex_controller = true
same_mutex mutex_worker mutex_worker = true
same_mutex mutex_job_insertion mutex_job_insertion = true
same_mutex mutex_server_continue mutex_server_continue = true
same_mutex mutex_all_jobs_done mutex_all_jobs_done = true
same_mutex _ _ = false

abbrev pub same_cond : CondName → CondName → Bool
same_cond cond_controller cond_controller = true
same_cond cond_worker cond_worker = true
same_cond cond_server_continue cond_server_continue = true
same_cond cond_all_jobs_done cond_all_jobs_done = true
same_cond _ _ = false

-- The threads that wait, and how many of them have been woken and have not yet gone on.
pub record CondVar : Type 0 where
  pub waiting : ℕ
  pub wakeups : ℕ

-- One call of `send`: the eight bytes of a size, or a text.
pub data Packet : Type 0 where
  size : ℕ → Packet
  text : Bytes → Packet

-- The counters are `unsigned int`. `client_socket` is the local variable of `run` whose address each
-- controller thread is given. `sent` holds each packet behind its socket, the oldest first.
pub record Server : Type 0 where
  pub queue : Queue
  pub thread_pool_size : ℕ
  pub running_jobs : ℕ
  pub busy_workers : ℕ
  pub concurrency : ℕ
  pub should_stop : Bool
  pub continue_execution : Bool
  pub controllers_should_stop : Bool
  pub jobs_entered : ℕ
  pub client_socket : ℕ
  pub owner : MutexName → Option ThreadId
  pub cond : CondName → CondVar
  pub sent : List (ℕ × Packet)

abbrev pub get_running_jobs : Server → ℕ
get_running_jobs s = s.running_jobs

abbrev pub get_busy_workers : Server → ℕ
get_busy_workers s = s.busy_workers

abbrev pub increase_running_jobs : Server → Server
increase_running_jobs s = record s { running_jobs = (s.running_jobs + 1) % 2 ^ 32 }

abbrev pub set_concurrency : ℕ → Server → Server
set_concurrency concurrency s = record s { concurrency = concurrency }

-- `pthread_mutex_lock`: it waits while any thread has the mutex.
unfoldable pub lock : MutexName → ThreadId → Server → Outcome Server
lock m t s = elim (s.owner m) [
  | none ↦ ok (record s { owner = λ n. if same_mutex m n then some t else s.owner n })
  | some _ ↦ blocked
]

unfoldable pub unlock : MutexName → Server → Server
unlock m s = record s { owner = λ n. if same_mutex m n then none else s.owner n }

-- No thread, or another one, has the mutex: the outcome of `pthread_mutex_unlock` is undefined then.
unfoldable pub unlock_own : MutexName → ThreadId → Server → Outcome Server
unfolding unlock
unlock_own m t s = elim (s.owner m) [
  | none ↦ fault foreign_unlock
  | some u ↦ if same_thread u t then ok (unlock m s) else fault foreign_unlock
]

abbrev set_cond : CondName → CondVar → Server → Server
set_cond c v s = record s { cond = λ d. if same_cond c d then v else s.cond d }

-- The first half of `pthread_cond_wait`: the thread is counted as waiting, and the mutex is given up.
unfoldable pub cond_wait : CondName → MutexName → Server → Server
unfolding unlock
cond_wait c m s =
    let v = s.cond c in
    unlock m (set_cond c (record { waiting = v.waiting + 1; wakeups = v.wakeups }) s)

-- The second half: a woken thread takes the mutex again. POSIX lets a thread wake with no signal.
unfoldable pub wake : Bool → CondName → MutexName → ThreadId → Server → Outcome Server
unfolding lock
wake spurious c m t s =
    let v = s.cond c in
    if (spurious || ltb 0 v.wakeups) && ltb 0 v.waiting
    then lock m t (set_cond c (record { waiting = v.waiting - 1; wakeups = v.wakeups - 1 }) s)
    else blocked

-- `pthread_cond_signal` wakes one of the threads that wait at this moment, if there is one.
unfoldable pub signal : CondName → Server → Server
signal c s =
    let v = s.cond c in
    set_cond c
      (record {
        waiting = v.waiting;
        wakeups = if ltb v.wakeups v.waiting then v.wakeups + 1 else v.wakeups;
      })
      s

unfoldable pub broadcast : CondName → Server → Server
broadcast c s =
    let v = s.cond c in set_cond c (record { waiting = v.waiting; wakeups = v.waiting }) s

-- What `strlen` and `%s` see of a text: the bytes before its first zero.
unfoldable pub c_str : Bytes → Bytes
c_str [] = []
c_str (c ∷ s) = let rest = c_str s in if c == 0 then [] else c ∷ rest

abbrev pub send : ℕ → Packet → Server → Server
send socket packet s = record s { sent = s.sent ++ (socket, packet) ∷ [] }

-- A message is its size and then its bytes, each by a `send` of its own.
abbrev pub send_size : ℕ → Bytes → Server → Server
send_size socket message s = send socket (size (length (c_str message))) s

abbrev pub send_text : ℕ → Bytes → Server → Server
send_text socket message s = send socket (text (c_str message)) s

unfoldable pub send_message : ℕ → Bytes → Server → Server
send_message socket message s = send_text socket message (send_size socket message s)
