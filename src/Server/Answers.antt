-- ===== src/Server/Answers.antt =====
-- What the threads of src/Server send to one socket, and the jobs whose output is still to be sent
-- there.
pub mod Sends
pub mod Silence
pub mod Stray
pub mod Replies
pub mod Given
use multithreaded_network_jo.Prelude.{
  ℕ, zero, ◌+◌, ◌<◌, ◌≡◌, ◌≢◌, List, [], ◌∷◌, ◌==◌, if◌then◌else◌, Option,
}
use multithreaded_network_jo.Commands.{JobTriplate}
use multithreaded_network_jo.Tools.WaitingBufferQueue.Weights.{weigh, weigh_found}
use multithreaded_network_jo.Server.State.{Packet}
use multithreaded_network_jo.Server.Controller
use multithreaded_network_jo.Server.Worker
use multithreaded_network_jo.Server.System.{System}

-- How many packets have been sent to a socket.
unfoldable pub sent_to : ℕ → List (ℕ × Packet) → ℕ
sent_to socket [] = 0
sent_to socket ((k, p) ∷ sent) = (if k == socket then 1 else 0) + sent_to socket sent

-- One for a job of the client at that socket.
unfoldable pub aims : ℕ → JobTriplate → ℕ
aims socket j = if j.socket_id == socket then 1 else 0

-- The jobs for that socket in the hands of a controller, and of a worker.
abbrev pub controller_aims : ℕ → Controller.Pc → ℕ
controller_aims socket (Controller.insert_lock j) = aims socket j
controller_aims socket (Controller.insert j) = aims socket j
controller_aims socket (Controller.insert_unlock j) = aims socket j
controller_aims socket (Controller.submit_respond j) = aims socket j
controller_aims socket (Controller.submit_text j) = aims socket j
controller_aims socket (Controller.stop_respond given found) = weigh_found (aims socket) found
controller_aims socket (Controller.stop_text given found) = weigh_found (aims socket) found
controller_aims socket (Controller.stop_lock found) = weigh_found (aims socket) found
controller_aims socket (Controller.stop_notify found) = weigh_found (aims socket) found
controller_aims socket (Controller.notify_size j) = aims socket j
controller_aims socket (Controller.notify_text j) = aims socket j
controller_aims socket (Controller.drain_respond j) = aims socket j
controller_aims socket (Controller.drain_text j) = aims socket j
controller_aims socket _ = 0

abbrev pub worker_aims : ℕ → Worker.Pc → ℕ
worker_aims socket (Worker.take_unlock j) = aims socket j
worker_aims socket (Worker.notify_lock j) = aims socket j
worker_aims socket (Worker.notify j) = aims socket j
worker_aims socket (Worker.notify_unlock j) = aims socket j
worker_aims socket (Worker.count_busy j) = aims socket j
worker_aims socket (Worker.execute j) = aims socket j
worker_aims socket (Worker.running j) = aims socket j
worker_aims socket (Worker.responding j response) = aims socket j
worker_aims socket _ = 0

-- No controller has been created for a client at that socket.
abbrev pub Unknown : ℕ → System → Type 0
Unknown socket y = (i : ℕ) → i < y.accepted → y.accepted_socket i ≢ socket
