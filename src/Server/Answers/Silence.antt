-- ===== src/Server/Answers/Silence.antt =====
-- To which sockets one step of a controller or of a worker of src/Server sends.
use multithreaded_network_jo.Prelude.{ℕ, ◌≡◌, ◌≢◌, ◌∙◌, arith, ok, >>=-eq-ok}
use multithreaded_network_jo.Tools.StringEditor.{remove_first_word, space}
use multithreaded_network_jo.Tools.WaitingBufferQueue.{get_job_triplate, remove_job_triplate_by_id}
use multithreaded_network_jo.Tools.WaitingBufferQueue.Weights.{
  weigh, weigh-insert, weigh-get, weigh-remove,
}
use multithreaded_network_jo.Server.State.{
  ThreadId, Server, lock, unlock, unlock_own, cond_wait, wake, signal, broadcast,
}
use multithreaded_network_jo.Server.Choice.{Choice}
use multithreaded_network_jo.Server.Controller
use multithreaded_network_jo.Server.Controller.{Controller, step_at}
use multithreaded_network_jo.Server.Worker
use multithreaded_network_jo.Server.Worker.{worker_step, create_output_response}
use multithreaded_network_jo.Server.Answers.Sends.{
  target, controller-Sends, worker-Sends, Sends-sent_to,
}
use multithreaded_network_jo.Server.Answers.{sent_to, aims, controller_aims, worker_aims}

-- Nothing has been sent to the socket, and no job that waits is meant for it.
abbrev pub Silent : ℕ → Server → Type 0
Silent socket s = (sent_to socket s.sent ≡ 0) × (weigh (aims socket) s.queue.buffer ≡ 0)

-- A step leaves no job for the socket in the buffer or with the controller.
controller-aims :
    (socket : ℕ) (pc : Controller.Pc) (ch : Choice) (t : ThreadId) (s : Server) (c : Controller)
    {r : Server × Controller}
    → step_at pc ch t s c ≡ ok r
    → c.client_socket ≢ socket
    → weigh (aims socket) s.queue.buffer ≡ 0
    → controller_aims socket pc ≡ 0
    → (weigh (aims socket) r.0.queue.buffer ≡ 0) × (controller_aims socket r.1.pc ≡ 0)
unfolding step_at aims lock unlock cond_wait wake signal broadcast
controller-aims socket Controller.unborn ch t s c h ne q none = ground arith
controller-aims socket (Controller.insert j) ch t s c h ne q none =
    ground (arith, weigh-insert (aims socket) j s.queue)
controller-aims socket Controller.stop_remove ch t s c h ne q none =
    let job_id = remove_first_word c.client_command space in
    let (x, e, f) = >>=-eq-ok (remove_job_triplate_by_id job_id s.queue) _ h in
    ground (arith, weigh-remove (aims socket) job_id s.queue e)
controller-aims socket Controller.drain_take ch t s c h ne q none =
    let (x, e, f) = >>=-eq-ok (get_job_triplate s.queue) _ h in
    ground (arith, weigh-get (aims socket) s.queue e)
controller-aims socket _ ch t s c h ne q none = ground arith

worker-aims :
    (socket : ℕ) (pc : Worker.Pc) (ch : Choice) (t : ThreadId) (s : Server) {r : Server × Worker.Pc}
    → worker_step pc ch t s ≡ ok r
    → weigh (aims socket) s.queue.buffer ≡ 0
    → worker_aims socket pc ≡ 0
    → (weigh (aims socket) r.0.queue.buffer ≡ 0) × (worker_aims socket r.1 ≡ 0)
unfolding worker_step unlock_own lock unlock cond_wait wake signal
worker-aims socket Worker.unborn ch t s h q none = ground arith
worker-aims socket Worker.take ch t s h q none =
    let (x, e, f) = >>=-eq-ok (get_job_triplate s.queue) _ h in
    ground (arith, weigh-get (aims socket) s.queue e)
worker-aims socket _ ch t s h q none = ground arith

target-other :
    (socket : ℕ) (pc : Controller.Pc) (c : Controller)
    → c.client_socket ≢ socket
    → controller_aims socket pc ≡ 0
    → target pc c ≢ socket
unfolding aims
target-other socket pc c ne none e = ground arith

-- A worker sends nothing, or to the socket of its job.
worker-sent :
    (socket : ℕ) (pc : Worker.Pc) (ch : Choice) (t : ThreadId) (s : Server) {r : Server × Worker.Pc}
    → worker_step pc ch t s ≡ ok r
    → worker_aims socket pc ≡ 0
    → sent_to socket r.0.sent ≡ sent_to socket s.sent
unfolding aims worker_step unlock_own lock unlock cond_wait wake signal
worker-sent socket (Worker.running j) ch t s {r} h none =
    (Sends-sent_to socket j.socket_id s r.0 (worker-Sends (Worker.running j) ch t s h)).1
      (ground arith)
worker-sent socket (Worker.responding j response) ch t s {r} h none =
    (Sends-sent_to socket j.socket_id s r.0
        (worker-Sends (Worker.responding j response) ch t s h)).1
      (ground arith)
worker-sent socket Worker.unborn ch t s h none = ground arith
worker-sent socket _ ch t s h none = ground arith

pub controller-Silent :
    (socket : ℕ) (pc : Controller.Pc) (ch : Choice) (t : ThreadId) (s : Server) (c : Controller)
    {r : Server × Controller}
    → step_at pc ch t s c ≡ ok r
    → c.client_socket ≢ socket
    → Silent socket s
    → controller_aims socket pc ≡ 0
    → Silent socket r.0 × (controller_aims socket r.1.pc ≡ 0)
controller-Silent socket pc ch t s c {r} h ne q none =
    let (queue, aim) = controller-aims socket pc ch t s c h ne q.1 none in
    let same =
      (Sends-sent_to socket (target pc c) s r.0 (controller-Sends pc ch t s c h)).1
        (target-other socket pc c ne none) in
    ((same ∙ q.0, queue), aim)

pub worker-Silent :
    (socket : ℕ) (pc : Worker.Pc) (ch : Choice) (t : ThreadId) (s : Server) {r : Server × Worker.Pc}
    → worker_step pc ch t s ≡ ok r
    → Silent socket s
    → worker_aims socket pc ≡ 0
    → Silent socket r.0 × (worker_aims socket r.1 ≡ 0)
worker-Silent socket pc ch t s h q none =
    let (queue, aim) = worker-aims socket pc ch t s h q.1 none in
    ((worker-sent socket pc ch t s h none ∙ q.0, queue), aim)
