-- ===== src/Server/Once/Starts.antt =====
-- The account of every job of src/Server, under all interleavings.
use multithreaded_network_jo.Prelude.{ℕ, ◌+◌, ◌≤◌, ◌≡◌}
use multithreaded_network_jo.Server.State.{Server}
use multithreaded_network_jo.Server.Choice.{Choice}
use multithreaded_network_jo.Server.Controller.{Controller}
use multithreaded_network_jo.Server.Worker
use multithreaded_network_jo.Server.System.{System}
use multithreaded_network_jo.Server.Counters.Pool.{Pool}
use multithreaded_network_jo.Server.Counters.Controllers.{controllers_total}
use multithreaded_network_jo.Server.Once.{waiting, given_out, may_enter}
use multithreaded_network_jo.Server.Orderly.{Orderly}

record Once (k w started lost : ℕ) (y : System) : Type 0 where
  pool : Pool w y
  account : started + waiting k w y + lost ≡ given_out k y.server.jobs_entered
  room : y.server.jobs_entered + controllers_total may_enter y ≤ y.accepted
