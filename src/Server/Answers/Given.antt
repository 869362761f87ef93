-- ===== src/Server/Answers/Given.antt =====
-- Every client of src/Server with a valid command is sent its answer, under all interleavings.
use multithreaded_network_jo.Prelude.{ℕ, ◌≡◌, true, List}
use multithreaded_network_jo.Server.State.{Packet, Server}
use multithreaded_network_jo.Server.Choice.{Choice}
use multithreaded_network_jo.Server.Controller
use multithreaded_network_jo.Server.Controller.{Controller, handler}
use multithreaded_network_jo.Server.System.{System}
use multithreaded_network_jo.Server.Births.{Births}
use multithreaded_network_jo.Server.Answers.Sends.{Sends}
use multithreaded_network_jo.Server.Answers.Replies.{answered_at, Own, Given}

-- What is known of one controller.
abbrev Books : List (ℕ × Packet) → Controller → Type 0
Books sent c =
    Own c.pc c.client_socket c.client_command c.client_command_mode
    × (answered_at c.pc c.client_command_mode ≡ true → Given c sent)

record Answered (y : System) : Type 0 where
  births : Births y
  books : (i : ℕ) → Books y.server.sent (y.controllers i)
