-- ===== src/Server/Answers/Sends.antt =====
-- The sends among the steps of src/Server: each step sends nothing, or one packet to one socket.
use multithreaded_network_jo.Prelude.{
  ℕ, ◌+◌, ◌≤◌, ◌≡◌, ◌≢◌, ap, arith, ◌==◌, if◌then◌else◌, List, [], ◌∷◌, ◌++◌, length, ok, ◌⊎◌, inl,
  inr, >>=-eq-ok, Bool-cases, ltb, stoi,
}
use multithreaded_network_jo.Tools.WaitingBufferQueue.{at}
use multithreaded_network_jo.Server.Messages.{
  cancel_message, submit_message, level_message, poll_message, stop_message, removed_message,
  drain_message, exit_message,
}
use multithreaded_network_jo.Server.State.{
  ThreadId, Packet, size, text, c_str, Server, lock, unlock, unlock_own, cond_wait, wake, signal,
  broadcast,
}
use multithreaded_network_jo.Server.Choice.{Choice, outputs}
use multithreaded_network_jo.Server.Controller
use multithreaded_network_jo.Server.Controller.{Controller, step_at}
use multithreaded_network_jo.Server.Worker
use multithreaded_network_jo.Server.Worker.{worker_step, create_output_response}
use multithreaded_network_jo.Server.Answers.{sent_to}

-- Where a controller sends, if it sends.
abbrev pub target : Controller.Pc → Controller → ℕ
target (Controller.submit_respond j) c = j.socket_id
target (Controller.submit_text j) c = j.socket_id
target (Controller.notify_size j) c = j.socket_id
target (Controller.notify_text j) c = j.socket_id
target (Controller.drain_respond j) c = j.socket_id
target (Controller.drain_text j) c = j.socket_id
target _ c = c.client_socket

-- Nothing or one packet more.
abbrev pub Sends : ℕ → Server → Server → Type 0
Sends socket s s' = (s'.sent ≡ s.sent) ⊎ ((p : Packet) × (s'.sent ≡ s.sent ++ (socket, p) ∷ []))

pub controller-Sends :
    (pc : Controller.Pc) (ch : Choice) (t : ThreadId) (s : Server) (c : Controller)
    {r : Server × Controller}
    → step_at pc ch t s c ≡ ok r
    → Sends (target pc c) s r.0
unfolding step_at lock unlock cond_wait wake signal broadcast
controller-Sends Controller.unborn ch t s c h = inl (ground arith)
controller-Sends Controller.cancel_respond ch t s c h =
    inr (size (length (c_str cancel_message)), ground arith)
controller-Sends Controller.cancel_text ch t s c h = inr (text (c_str cancel_message), ground arith)
controller-Sends Controller.exit_respond ch t s c h =
    inr (size (length (c_str exit_message)), ground arith)
controller-Sends Controller.exit_text ch t s c h = inr (text (c_str exit_message), ground arith)
controller-Sends (Controller.submit_respond j) ch t s c h =
    inr (size (length (c_str (submit_message j))), ground arith)
controller-Sends (Controller.submit_text j) ch t s c h =
    inr (text (c_str (submit_message j)), ground arith)
controller-Sends (Controller.notify_size j) ch t s c h =
    inr (size (length (c_str removed_message)), ground arith)
controller-Sends (Controller.notify_text j) ch t s c h =
    inr (text (c_str removed_message), ground arith)
controller-Sends (Controller.drain_respond j) ch t s c h =
    inr (size (length (c_str drain_message)), ground arith)
controller-Sends (Controller.drain_text j) ch t s c h =
    inr (text (c_str drain_message), ground arith)
controller-Sends (Controller.stop_respond given found) ch t s c h =
    inr (size (length (c_str (stop_message given found))), ground arith)
controller-Sends (Controller.stop_text given found) ch t s c h =
    inr (text (c_str (stop_message given found)), ground arith)
controller-Sends (Controller.level_respond given) ch t s c h =
    let (n, e, f) = >>=-eq-ok (stoi given) _ h in
    inr (size (length (c_str (level_message given))), ground arith)
controller-Sends (Controller.level_text given n) ch t s c h =
    inr (text (c_str (level_message given)), ground arith)
controller-Sends Controller.poll_size ch t s c h = inr (size s.queue.size, ground arith)
controller-Sends (Controller.poll_loop i n) ch t s c h = elim (Bool-cases (ltb i n)) [
  | inl more ↦
      let (j, e, f) = >>=-eq-ok (at i s.queue) _ (rw more at h) in
      inr (size (length (c_str (poll_message j))), ground arith)
  | inr last ↦ inl (ground arith)
]
controller-Sends (Controller.poll_text i n j) ch t s c h =
    inr (text (c_str (poll_message j)), ground arith)
controller-Sends _ ch t s c h = inl (ground arith)

-- Where a worker sends, if it sends.
abbrev pub worker_target : Worker.Pc → ℕ
worker_target (Worker.running j) = j.socket_id
worker_target (Worker.responding j response) = j.socket_id
worker_target _ = 0

pub worker-Sends :
    (pc : Worker.Pc) (ch : Choice) (t : ThreadId) (s : Server) {r : Server × Worker.Pc}
    → worker_step pc ch t s ≡ ok r
    → Sends (worker_target pc) s r.0
unfolding worker_step unlock_own lock unlock cond_wait wake signal
worker-Sends Worker.unborn ch t s h = inl (ground arith)
worker-Sends (Worker.running j) (outputs output) t s h =
    inr (size (length (c_str (create_output_response output j.job_id))), ground arith)
worker-Sends (Worker.running j) ch t s h = inl (ground arith)
worker-Sends (Worker.responding j response) ch t s h = inr (text (c_str response), ground arith)
worker-Sends _ ch t s h = inl (ground arith)

pub sent_to-append :
    (socket k : ℕ) (p : Packet) (sent : List (ℕ × Packet))
    → sent_to socket (sent ++ (k, p) ∷ []) ≡ sent_to socket sent + (if k == socket then 1 else 0)
unfolding sent_to
sent_to-append socket k p [] = ground arith
sent_to-append socket k p ((l, q) ∷ sent) = omega (arith, sent_to-append socket k p sent)

-- What has been sent stays sent, and a socket that is not meant gets nothing.
pub Sends-sent_to :
    (socket k : ℕ) (s s' : Server)
    → Sends k s s'
    → (sent_to socket s.sent ≤ sent_to socket s'.sent)
      × (k ≢ socket → sent_to socket s'.sent ≡ sent_to socket s.sent)
Sends-sent_to socket k s s' (inl same) = (rw same (omega arith), λ ne. ap (sent_to socket) same)
Sends-sent_to socket k s s' (inr (p, e)) = (
  rw (e, sent_to-append socket k p s.sent) (omega arith),
  λ ne. rw (e, sent_to-append socket k p s.sent) (ground arith),
)
