-- ===== src/Server/Answers/Replies.antt =====
-- The answer of each handler of src/Server/Threads/controllerThread.cpp, and the step that sends it.
use multithreaded_network_jo.Prelude.{
  ℕ, ◌≡◌, ◌≢◌, refl, ◌∙◌, arith, Bool, true, false, List, ok, inl, inr, ◌⊎◌, [], ◌∷◌, ◌++◌,
  append_assoc, Option, Bytes,
}
use multithreaded_network_jo.Commands.{
  CcMode, issue_job, set_concurrency, stop, poll, exit, invalid, JobTriplate,
}
use multithreaded_network_jo.Tools.StringEditor.{remove_first_word, space}
use multithreaded_network_jo.Server.Messages.{
  cancel_message, submit_message, level_message, stop_message, exit_message,
}
use multithreaded_network_jo.Server.State.{
  ThreadId, Packet, size, text, c_str, Server, lock, unlock, cond_wait, wake, signal, broadcast,
}
use multithreaded_network_jo.Server.Choice.{Choice}
use multithreaded_network_jo.Server.Controller
use multithreaded_network_jo.Server.Controller.{Controller, step_at, handler}
use multithreaded_network_jo.Server.Handshake.{is_valid_mode}
use multithreaded_network_jo.Server.Answers.Sends.{Sends}

-- What a controller with this command answers its client: the text that its handler makes, and for
-- `poll` the number of the jobs that wait.
abbrev pub Answer : CcMode → ℕ → Bytes → Packet → Type 0
Answer issue_job socket command p =
    (p ≡ text (c_str cancel_message))
    ⊎ ((j : JobTriplate) × (j.socket_id ≡ socket)
        × (j.job ≡ remove_first_word command space)
        × (p ≡ text (c_str (submit_message j))))
Answer set_concurrency socket command p =
    p ≡ text (c_str (level_message (remove_first_word command space)))
Answer poll socket command p = (n : ℕ) × (p ≡ size n)
Answer stop socket command p =
    (found : Option JobTriplate) × (p
      ≡ text (c_str (stop_message (remove_first_word command space) found)))
Answer exit socket command p = p ≡ text (c_str exit_message)
Answer invalid socket command p = ⊥

abbrev pub Contains : ℕ × Packet → List (ℕ × Packet) → Type 0
Contains x sent =
    (before : List (ℕ × Packet)) × (after : List (ℕ × Packet)) × (sent ≡ before ++ x ∷ after)

-- What has been sent stays sent.
pub Contains-grows :
    (x : ℕ × Packet) (k : ℕ) (s s' : Server) → Sends k s s' → Contains x s.sent → Contains x s'.sent
Contains-grows x k s s' (inl same) (before, after, e) = (before, after, same ∙ e)
Contains-grows x k s s' (inr (p, more)) (before, after, e) =
    (before, after ++ (k, p) ∷ [], rw (more, e) (append_assoc before (x ∷ after) ((k, p) ∷ [])))

-- Whether the controller has answered its client.
abbrev pub answered_at : Controller.Pc → CcMode → Bool
answered_at Controller.cancel_unlock mode = true
answered_at Controller.submit_signal mode = true
answered_at (Controller.level_loop i n) mode = true
answered_at (Controller.level_lock i n) mode = true
answered_at (Controller.level_signal i n) mode = true
answered_at (Controller.level_unlock i n) mode = true
answered_at (Controller.poll_loop i n) mode = true
answered_at (Controller.poll_text i n j) mode = true
answered_at (Controller.stop_lock found) mode = true
answered_at (Controller.stop_notify found) mode = true
answered_at (Controller.notify_size j) mode = true
answered_at (Controller.notify_text j) mode = true
answered_at Controller.stop_unlock mode = true
answered_at Controller.exit_stop mode = true
answered_at Controller.exit_continue_lock mode = true
answered_at Controller.exit_continue_set mode = true
answered_at Controller.exit_continue_unlock mode = true
answered_at Controller.finished mode = is_valid_mode mode
answered_at _ mode = false

-- What its locals say before the answer: which command it is, that the triplate has the socket of the
-- client, and that a command that goes through the common beginning has a handler behind it.
abbrev pub Own : Controller.Pc → ℕ → Bytes → CcMode → Type 0
Own Controller.full_lock socket command mode = mode ≡ issue_job
Own Controller.full_check socket command mode = mode ≡ issue_job
Own Controller.full_sleep socket command mode = mode ≡ issue_job
Own Controller.full_wait socket command mode = mode ≡ issue_job
Own Controller.full_stop_check socket command mode = mode ≡ issue_job
Own Controller.cancel_respond socket command mode = mode ≡ issue_job
Own Controller.cancel_text socket command mode = mode ≡ issue_job
Own Controller.full_unlock socket command mode = mode ≡ issue_job
Own Controller.make_triplate socket command mode = mode ≡ issue_job
Own Controller.poll_size socket command mode = mode ≡ poll
Own Controller.stop_remove socket command mode = mode ≡ stop
Own Controller.exit_flag socket command mode = mode ≡ exit
Own Controller.exit_lock socket command mode = mode ≡ exit
Own Controller.exit_broadcast socket command mode = mode ≡ exit
Own Controller.exit_unlock socket command mode = mode ≡ exit
Own Controller.drain_check socket command mode = mode ≡ exit
Own Controller.drain_take socket command mode = mode ≡ exit
Own Controller.jobs_lock socket command mode = mode ≡ exit
Own Controller.jobs_check socket command mode = mode ≡ exit
Own Controller.jobs_sleep socket command mode = mode ≡ exit
Own Controller.jobs_wait socket command mode = mode ≡ exit
Own Controller.jobs_unlock socket command mode = mode ≡ exit
Own Controller.exit_respond socket command mode = mode ≡ exit
Own Controller.exit_text socket command mode = mode ≡ exit
Own (Controller.insert_lock j) socket command mode =
    (mode ≡ issue_job) × (j.socket_id ≡ socket) × (j.job ≡ remove_first_word command space)
Own (Controller.insert j) socket command mode =
    (mode ≡ issue_job) × (j.socket_id ≡ socket) × (j.job ≡ remove_first_word command space)
Own (Controller.insert_unlock j) socket command mode =
    (mode ≡ issue_job) × (j.socket_id ≡ socket) × (j.job ≡ remove_first_word command space)
Own (Controller.submit_respond j) socket command mode =
    (mode ≡ issue_job) × (j.socket_id ≡ socket) × (j.job ≡ remove_first_word command space)
Own (Controller.submit_text j) socket command mode =
    (mode ≡ issue_job) × (j.socket_id ≡ socket) × (j.job ≡ remove_first_word command space)
Own Controller.set_level socket command mode = mode ≡ set_concurrency
Own (Controller.level_respond given) socket command mode =
    (mode ≡ set_concurrency) × (given ≡ remove_first_word command space)
Own (Controller.level_text given n) socket command mode =
    (mode ≡ set_concurrency) × (given ≡ remove_first_word command space)
Own (Controller.stop_respond given found) socket command mode =
    (mode ≡ stop) × (given ≡ remove_first_word command space)
Own (Controller.stop_text given found) socket command mode =
    (mode ≡ stop) × (given ≡ remove_first_word command space)
Own (Controller.drain_respond j) socket command mode = mode ≡ exit
Own (Controller.drain_text j) socket command mode = mode ≡ exit
Own Controller.continue_lock socket command mode = handler mode ≢ Controller.finished
Own Controller.continue_set socket command mode = handler mode ≢ Controller.finished
Own Controller.continue_unlock socket command mode = handler mode ≢ Controller.finished
Own _ socket command mode = Unit

pub controller-Own :
    (pc : Controller.Pc) (ch : Choice) (t : ThreadId) (s : Server) (c : Controller)
    {r : Server × Controller}
    → step_at pc ch t s c ≡ ok r
    → Own pc c.client_socket c.client_command c.client_command_mode
    → Own r.1.pc r.1.client_socket r.1.client_command r.1.client_command_mode
unfolding step_at lock wake
controller-Own Controller.unborn ch t s c h o = ground arith
controller-Own _ ch t s c h o = ground arith

-- A step leaves the command and its client alone.
abbrev pub Same : Controller → Controller → Type 0
Same c c' =
    (c'.client_socket ≡ c.client_socket)
    × (c'.client_command ≡ c.client_command)
    × (c'.client_command_mode ≡ c.client_command_mode)

-- The step sends the answer.
abbrev pub AnswersNow : Server → Controller → Server → Type 0
AnswersNow s c s' =
    (p : Packet) × Answer c.client_command_mode c.client_socket c.client_command p
    × (s'.sent ≡ s.sent ++ (c.client_socket, p) ∷ [])

-- A controller that has answered after a step had answered before, or answers in this step.
pub controller-answers :
    (pc : Controller.Pc) (ch : Choice) (t : ThreadId) (s : Server) (c : Controller)
    {r : Server × Controller}
    → step_at pc ch t s c ≡ ok r
    → Own pc c.client_socket c.client_command c.client_command_mode
    → answered_at r.1.pc r.1.client_command_mode ≡ true
    → Same c r.1 × ((answered_at pc c.client_command_mode ≡ true) ⊎ AnswersNow s c r.0)
unfolding step_at lock unlock cond_wait wake signal broadcast
controller-answers Controller.unborn ch t s c h own now = ground arith
controller-answers Controller.cancel_text ch t s c h own now =
    (ground arith, inr (text (c_str cancel_message), rw own (inl refl), ground arith))
controller-answers (Controller.submit_text j) ch t s c h own now = (
  ground arith,
  inr (text (c_str (submit_message j)), rw own.0 (inr (j, own.1, own.2, refl)), ground arith),
)
controller-answers (Controller.level_text given n) ch t s c h own now =
    (ground arith, inr (text (c_str (level_message given)), rw (own.0, own.1) refl, ground arith))
controller-answers Controller.poll_size ch t s c h own now =
    (ground arith, inr (size s.queue.size, rw own (s.queue.size, refl), ground arith))
controller-answers (Controller.stop_text given found) ch t s c h own now = (
  ground arith,
  inr (text (c_str (stop_message given found)), rw (own.0, own.1) (found, refl), ground arith),
)
controller-answers Controller.exit_text ch t s c h own now =
    (ground arith, inr (text (c_str exit_message), rw own refl, ground arith))
controller-answers _ ch t s c h own now = ground arith

-- The answer is among the packets that have been sent.
abbrev pub Given : Controller → List (ℕ × Packet) → Type 0
Given c sent =
    (p : Packet) × Answer c.client_command_mode c.client_socket c.client_command p
    × Contains (c.client_socket, p) sent
