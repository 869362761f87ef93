-- ===== src/Commands.antt =====
-- src/Server/commands.cpp and include/clientCommands.h: the modes of a client command, and the job
-- triplates of the waiting buffer.
pub mod Modes
use multithreaded_network_jo.Prelude.{ℕ, ◌++◌, Bytes, codes, same_text, if◌then◌else◌, to_string}
use multithreaded_network_jo.Tools.StringEditor.{get_first_word, space}

-- `CC_Mode`.
pub data CcMode : Type 0 where
  issue_job set_concurrency stop poll exit invalid : CcMode

-- A socket descriptor is a non-negative `int`.
pub record JobTriplate : Type 0 where
  pub job_id : Bytes
  pub job : Bytes
  pub socket_id : ℕ

unfoldable pub get_client_command_mode : Bytes → CcMode
get_client_command_mode command =
    let first_argument = get_first_word command space in
    if same_text first_argument (codes "issueJob")
    then issue_job
    else if same_text first_argument (codes "setConcurrency")
    then set_concurrency
    else if same_text first_argument (codes "poll")
    then poll
    else if same_text first_argument (codes "stop")
    then stop
    else if same_text first_argument (codes "exit")
    then exit
    else invalid

-- `operator<<` on a triplate: what it writes to the stream.
unfoldable pub print_triplate : JobTriplate → Bytes
print_triplate t =
    codes "(" ++ t.job_id ++ codes ", " ++ t.job ++ codes ", " ++ to_string t.socket_id ++ codes ")"
