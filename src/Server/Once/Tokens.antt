-- ===== src/Server/Once/Tokens.antt =====
-- What one step of a thread of src/Server does to the places of a job with one identifier.
use multithreaded_network_jo.Prelude.{
  ℕ, ◌+◌, ◌≤◌, ◌<◌, ◌≡◌, ◌%◌, ◌^◌, arith, Bytes, ok, same_text_iff, to_string-injective,
  if◌then◌else◌, ◌==◌, >>=-eq-ok, Bool-cases, inl, inr,
}
use multithreaded_network_jo.Tools.StringEditor.{remove_first_word, space}
use multithreaded_network_jo.Tools.WaitingBufferQueue.{get_job_triplate, remove_job_triplate_by_id}
use multithreaded_network_jo.Tools.WaitingBufferQueue.Weights.{
  weigh-insert, weigh-get, weigh-remove,
}
use multithreaded_network_jo.Server.State.{
  ThreadId, Server, lock, unlock, unlock_own, cond_wait, wake, signal, broadcast, send_message,
}
use multithreaded_network_jo.Server.Choice.{Choice}
use multithreaded_network_jo.Server.Controller
use multithreaded_network_jo.Server.Controller.{Controller, step_at}
use multithreaded_network_jo.Server.Worker
use multithreaded_network_jo.Server.Worker.{worker_step}
use multithreaded_network_jo.Server.Once.{
  identifier, carries, queued, pending, taken, start_at, lost_at, given_up_at, given_out, may_enter,
}

codes_append-injective : (m n : ℕ) → identifier m ≡ identifier n → m ≡ n
codes_append-injective m n e = to_string-injective m n (cc e)

-- An identifier is carried by the jobs of one number.
pub carries_number :
    (k entered socket : ℕ) (job : Bytes)
    → carries k (record { job_id = identifier entered; job = job; socket_id = socket })
      ≡ (if entered == k then 1 else 0)
unfolding carries
carries_number k entered socket job = elim (Bool-cases (entered == k)) [
  | inl same ↦ ground (arith, same_text_iff (identifier entered) (identifier k))
  | inr other ↦
      ground
        (arith, same_text_iff (identifier entered) (identifier k), codes_append-injective entered k)
]

pub controller-tokens :
    (k : ℕ) (pc : Controller.Pc) (ch : Choice) (t : ThreadId) (s : Server) (c : Controller)
    {r : Server × Controller}
    → step_at pc ch t s c ≡ ok r
    → s.jobs_entered + may_enter pc < 2 ^ 32
    → (pending k r.1.pc + queued k r.0.queue.buffer + lost_at k pc s c + given_out k s.jobs_entered
        ≡ pending k pc + queued k s.queue.buffer + given_out k r.0.jobs_entered)
      × (r.0.jobs_entered + may_enter r.1.pc ≤ s.jobs_entered + may_enter pc)
unfolding step_at lock unlock cond_wait wake signal broadcast send_message
controller-tokens k Controller.unborn ch t s c h small = ground arith
controller-tokens k Controller.make_triplate ch t s c h small = ground (
  arith,
  carries_number k ((s.jobs_entered + 1) % 2 ^ 32) c.client_socket
      (remove_first_word c.client_command space),
)
controller-tokens k (Controller.insert j) ch t s c h small =
    ground (arith, weigh-insert (carries k) j s.queue)
controller-tokens k Controller.stop_remove ch t s c h small =
    let job_id = remove_first_word c.client_command space in
    let (x, e, f) = >>=-eq-ok (remove_job_triplate_by_id job_id s.queue) _ h in
    ground (arith, weigh-remove (carries k) job_id s.queue e)
controller-tokens k Controller.drain_take ch t s c h small =
    let (x, e, f) = >>=-eq-ok (get_job_triplate s.queue) _ h in
    ground (arith, weigh-get (carries k) s.queue e)
controller-tokens k _ ch t s c h small = ground arith

pub worker-tokens :
    (k : ℕ) (pc : Worker.Pc) (ch : Choice) (t : ThreadId) (s : Server) {r : Server × Worker.Pc}
    → worker_step pc ch t s ≡ ok r
    → (start_at k pc ch + given_up_at k pc ch + taken k r.1 + queued k r.0.queue.buffer
        ≡ taken k pc + queued k s.queue.buffer)
      × (r.0.jobs_entered ≡ s.jobs_entered)
unfolding worker_step unlock_own lock unlock cond_wait wake signal send_message
worker-tokens k Worker.unborn ch t s h = ground arith
worker-tokens k Worker.take ch t s h =
    let (x, e, f) = >>=-eq-ok (get_job_triplate s.queue) _ h in
    ground (arith, weigh-get (carries k) s.queue e)
worker-tokens k _ ch t s h = ground arith
