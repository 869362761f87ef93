-- ===== src/Server/Handshake.antt =====
-- The handshake of `run` with its newest controller: the main thread hands over the address of its
-- `client_socket`, and accepts no further client before a controller has set `continueExecution`.
pub mod Steps
pub mod Invariant
pub mod Sockets
pub mod Blocked
use multithreaded_network_jo.Prelude.{ℕ, suc, ◌<◌, ◌≡◌, Bool, true, false}
use multithreaded_network_jo.Commands.{CcMode, invalid}
use multithreaded_network_jo.Server.Controller
use multithreaded_network_jo.Server.Controller.{Controller}
use multithreaded_network_jo.Server.System.{
  System, MainPc, wait_lock, wait_check, wait_wait, returned, wait_unlock,
}

abbrev pub is_valid_mode : CcMode → Bool
is_valid_mode invalid = false
is_valid_mode _ = true

-- Whether the controller has set `continueExecution` already. One that has ended for an invalid
-- command has not, and never will.
abbrev pub released_at : Controller.Pc → CcMode → Bool
released_at Controller.unborn mode = false
released_at Controller.start mode = false
released_at Controller.receive mode = false
released_at Controller.finished mode = is_valid_mode mode
released_at Controller.continue_lock mode = false
released_at Controller.continue_set mode = false
released_at Controller.exit_flag mode = false
released_at Controller.exit_lock mode = false
released_at Controller.exit_broadcast mode = false
released_at Controller.exit_unlock mode = false
released_at Controller.drain_check mode = false
released_at Controller.drain_take mode = false
released_at (Controller.drain_respond _) mode = false
released_at (Controller.drain_text _) mode = false
released_at Controller.jobs_lock mode = false
released_at Controller.jobs_check mode = false
released_at Controller.jobs_sleep mode = false
released_at Controller.jobs_wait mode = false
released_at Controller.jobs_unlock mode = false
released_at Controller.exit_respond mode = false
released_at Controller.exit_text mode = false
released_at Controller.exit_stop mode = false
released_at Controller.exit_continue_lock mode = false
released_at Controller.exit_continue_set mode = false
released_at _ mode = true

unfoldable pub released : Controller → Bool
released c = released_at c.pc c.client_command_mode

-- The main thread waits for the newest controller.
abbrev pub awaits : MainPc → Bool
awaits wait_lock = true
awaits wait_check = true
awaits wait_wait = true
awaits _ = false

-- A controller inside a handler got there by a valid mode.
abbrev pub in_handler : Controller.Pc → Bool
in_handler Controller.unborn = false
in_handler Controller.start = false
in_handler Controller.receive = false
in_handler Controller.finished = false
in_handler _ = true

unfoldable pub Sane : Controller → Type 0
Sane c = in_handler c.pc ≡ true → is_valid_mode c.client_command_mode ≡ true
