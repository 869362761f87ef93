-- ===== src/Server/QueueSafety.antt =====
-- The waiting buffer under any interleaving of the threads of src/Server.
use multithreaded_network_jo.Prelude.{ℕ, ◌<◌, ◌^◌, ◌≡◌, arith, ok, >>=-eq-ok}
use multithreaded_network_jo.Tools.StringEditor.{remove_first_word, space}
use multithreaded_network_jo.Tools.WaitingBufferQueue.{get_job_triplate, remove_job_triplate_by_id}
use multithreaded_network_jo.Tools.WaitingBufferQueue.Valid.{
  IsValid, insert-IsValid, get-IsValid, remove-IsValid,
}
use multithreaded_network_jo.Server.State.{
  ThreadId, controller_thread, worker_thread, Server, lock, unlock, unlock_own, cond_wait, wake,
  signal, broadcast, send_message,
}
use multithreaded_network_jo.Server.Choice.{Choice}
use multithreaded_network_jo.Server.Controller
use multithreaded_network_jo.Server.Controller.{Controller, controller_step, step_at}
use multithreaded_network_jo.Server.Worker
use multithreaded_network_jo.Server.Worker.{worker_step}
use multithreaded_network_jo.Server.Induction.{Keeps, Reach-Keeps}
use multithreaded_network_jo.Server.System.{System, MainPc, listen, main_step_at, Reach, initial}

controller-IsValid :
    (n : ℕ) (pc : Controller.Pc) (ch : Choice) (t : ThreadId) (s : Server) (c : Controller)
    {r : Server × Controller}
    → step_at pc ch t s c ≡ ok r
    → IsValid n s.queue
    → IsValid n r.0.queue
unfolding step_at lock unlock cond_wait wake signal broadcast send_message
controller-IsValid n Controller.unborn ch t s c h v = ground arith
controller-IsValid n (Controller.insert j) ch t s c h v =
    ground (arith, insert-IsValid n j s.queue v)
controller-IsValid n Controller.stop_remove ch t s c h v =
    let job_id = remove_first_word c.client_command space in
    let (x, e, f) = >>=-eq-ok (remove_job_triplate_by_id job_id s.queue) _ h in
    ground (arith, remove-IsValid n job_id s.queue e v)
controller-IsValid n Controller.drain_take ch t s c h v =
    let (x, e, f) = >>=-eq-ok (get_job_triplate s.queue) _ h in
    ground (arith, get-IsValid n s.queue e v)
controller-IsValid n _ ch t s c h v = ground arith

worker-IsValid :
    (n : ℕ) (pc : Worker.Pc) (ch : Choice) (t : ThreadId) (s : Server) {r : Server × Worker.Pc}
    → worker_step pc ch t s ≡ ok r
    → IsValid n s.queue
    → IsValid n r.0.queue
unfolding worker_step unlock_own lock unlock cond_wait wake signal broadcast send_message
worker-IsValid n Worker.unborn ch t s h v = ground arith
worker-IsValid n Worker.take ch t s h v =
    let (x, e, f) = >>=-eq-ok (get_job_triplate s.queue) _ h in
    ground (arith, get-IsValid n s.queue e v)
worker-IsValid n _ ch t s h v = ground arith

main-IsValid :
    (n : ℕ) (pc : MainPc) (ch : Choice) (y : System) {z : System}
    → main_step_at pc ch y ≡ ok z
    → IsValid n y.server.queue
    → IsValid n z.server.queue
unfolding main_step_at lock unlock cond_wait wake signal broadcast
main-IsValid n listen ch y h v = ground arith
main-IsValid n _ ch y h v = ground arith

Keeps-IsValid : (n : ℕ) → Keeps (λ y. IsValid n y.server.queue)
Keeps-IsValid n = record {
  main = λ ch y z h. main-IsValid n y.main ch y h;
  controller = λ i ch y r h. controller-IsValid n _ ch (controller_thread i) y.server _ h;
  worker = λ i ch y r h. worker-IsValid n _ ch (worker_thread i) y.server h;
}

-- Whatever the clients send and in whatever order the threads move, the waiting buffer stays
-- well-formed: its size is the number of its entries, it never has more of them than its capacity,
-- and the capacity is the buffer size that the server was started with (a 32-bit number).
pub Reach-IsValid :
    (n workers : ℕ) {y : System} → n < 2 ^ 32 → Reach n workers y → IsValid n y.server.queue
unfolding initial
Reach-IsValid n workers small = Reach-Keeps (Keeps-IsValid n) (omega arith)
