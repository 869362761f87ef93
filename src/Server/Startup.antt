-- ===== src/Server/Startup.antt =====
-- The start of the server: `createSocket` and `attachSocketToPort` of src/Server/server.cpp, and
-- src/App/jobExecutorServer.cpp.
pub mod Started
pub mod Ended
use multithreaded_network_jo.Prelude.{
  ℕ, ◌%◌, ◌^◌, Option, none, some, List, [], ◌∷◌, Bool, true, false, ◌==◌, if◌then◌else◌, Bytes, ℤ,
  to_unsigned, Outcome, ok, ◌>>=◌,
}
use multithreaded_network_jo.Server.System.{System, initial}
use multithreaded_network_jo.Server.Shutdown.{destroy}

-- `server_fd`: the error code -1, a descriptor, or one that has been closed.
pub data Descriptor : Type 0 where
  failed : Descriptor
  opened closed : ℕ → Descriptor

-- What `socket` returns, and whether the calls on a descriptor succeed. `bind` is given the port of the
-- address too, `none` for an address that has not been built.
pub record SocketCalls : Type 0 where
  pub socket : Descriptor
  pub sets_option : Descriptor → Bool
  pub binds : Descriptor → Option ℕ → Bool
  pub listens : Descriptor → Bool

-- `server_fd == 0`
abbrev pub is_zero : Descriptor → Bool
is_zero failed = false
is_zero (opened fd) = fd == 0
is_zero (closed fd) = fd == 0

abbrev pub close : Descriptor → Descriptor
close failed = failed
close (opened fd) = closed fd
close (closed fd) = closed fd

-- The answer, the descriptor and the address, whose port is one of 16 bits.
unfoldable pub create_socket : SocketCalls → ℕ → Bool × Descriptor × Option ℕ
create_socket calls port =
    if is_zero calls.socket
    then (false, calls.socket, none)
    else if calls.sets_option calls.socket
    then (true, calls.socket, some (port % 2 ^ 16))
    else (false, close calls.socket, none)

unfoldable pub attach_socket_to_port : SocketCalls → Descriptor → Option ℕ → Bool × Descriptor
attach_socket_to_port calls server_fd address =
    if calls.binds server_fd address
    then if calls.listens server_fd then (true, server_fd) else (false, close server_fd)
    else (false, close server_fd)

-- The port, the size of the buffer and that of the thread pool. `atoi` is the C library's.
unfoldable pub get_command_line_arguments : (Bytes → ℤ) → List Bytes → Option (ℕ × ℕ × ℕ)
get_command_line_arguments atoi (program ∷ port ∷ buffer_size ∷ thread_pool_size ∷ []) =
    some
      (to_unsigned (atoi port), to_unsigned (atoi buffer_size), to_unsigned (atoi thread_pool_size))
get_command_line_arguments atoi _ = none

-- What `main` does with the arguments: the port and the server that goes into `run`, or `none`
-- where it ends with code 1. The answer of `createSocket` is not looked at.
begin : SocketCalls → ℕ × ℕ × ℕ → Option (ℕ × System)
begin calls (port, buffer_size, thread_pool_size) =
    if (attach_socket_to_port calls (create_socket calls port).1 (create_socket calls port).2).0
    then some (port, initial buffer_size thread_pool_size)
    else none

unfoldable pub start_server : (Bytes → ℤ) → SocketCalls → List Bytes → Option (ℕ × System)
unfolding begin create_socket attach_socket_to_port get_command_line_arguments
start_server atoi calls argv = elim (get_command_line_arguments atoi argv) [
  | none ↦ none
  | some arguments ↦ begin calls arguments
]

-- The code that `main` ends with, where `run` returns with the system in the state `last`, whatever
-- its answer is.
unfoldable pub main_ends : Option (ℕ × System) → System → Outcome ℕ
main_ends none last = ok 1
main_ends (some started) last = destroy last.server >>= λ s. ok 0
