-- ===== src/Server/Startup/Started.antt =====
-- A server that src/App/jobExecutorServer.cpp starts, from its command line to every state it
-- reaches.
use multithreaded_network_jo.Prelude.{ℕ, ◌%◌, ◌^◌, ◌≡◌, ◌⊎◌, Option, none, some, true, false}
use multithreaded_network_jo.Server.System.{System}
use multithreaded_network_jo.Server.Startup.{failed, opened, closed, SocketCalls}

-- `bind` succeeds only on a descriptor that is open.
abbrev pub BindsOpen : SocketCalls → Type 0
BindsOpen calls =
    ((address : Option ℕ) → calls.binds failed address ≡ false)
    × ((fd : ℕ) (address : Option ℕ) → calls.binds (closed fd) address ≡ false)

-- The socket with the descriptor has its option set and is bound to the port, or it is descriptor 0,
-- which is bound to an address that has not been built.
abbrev pub Bound : SocketCalls → ℕ → ℕ → Type 0
Bound calls port fd =
    ((calls.sets_option (opened fd) ≡ true)
      × (calls.binds (opened fd) (some (port % 2 ^ 16)) ≡ true))
    ⊎ ((fd ≡ 0) × (calls.binds (opened fd) none ≡ true))
