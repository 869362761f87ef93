-- ===== src/Server/Messages.antt =====
-- The texts that the handlers of src/Server/Threads/controllerThread.cpp send.
use multithreaded_network_jo.Prelude.{Option, none, some, ◌++◌, Bytes, codes}
use multithreaded_network_jo.Commands.{JobTriplate}

abbrev pub cancel_message : Bytes
cancel_message = codes "JOB SUBMIT CANCELED BECAUSE OF SERVER TERMINATION"

abbrev pub submit_message : JobTriplate → Bytes
submit_message t = codes "JOB <" ++ t.job_id ++ codes ", " ++ t.job ++ codes "> SUBMITTED"

abbrev pub level_message : Bytes → Bytes
level_message concurrency = codes "CONCURRENCY SET AT " ++ concurrency

abbrev pub poll_message : JobTriplate → Bytes
poll_message t = t.job ++ codes ", " ++ t.job_id

abbrev pub stop_message : Bytes → Option JobTriplate → Bytes
stop_message given none = codes "JOB " ++ given ++ codes " NOTFOUND"
stop_message given (some t) = codes "JOB " ++ given ++ codes " REMOVED"

-- For the client whose job was removed.
abbrev pub removed_message : Bytes
removed_message = codes "JOB HAS BEEN REMOVED BEFORE EXECUTION"

abbrev pub drain_message : Bytes
drain_message = codes "SERVER TERMINATED BEFORE EXECUTION"

abbrev pub exit_message : Bytes
exit_message = codes "SERVER TERMINATED"
