-- ===== src/Tests/Client.antt =====
-- The client at concrete inputs.
use multithreaded_network_jo.Prelude.{
  c_string, ◌≡◌, refl, arith, some, List, [], ◌∷◌, true, codes, length, same_text, Bytes, ok,
}
use multithreaded_network_jo.Commands.{get_client_command_mode, issue_job}
use multithreaded_network_jo.Tools.StringEditor.{find, get_first_word, remove_first_word, space}
use multithreaded_network_jo.Server.State.{c_str}
use multithreaded_network_jo.Server.Jobs.{get_job_arguments}
use multithreaded_network_jo.Server.Jobs.Passed.{passed}
use multithreaded_network_jo.Client.Receivers.{
  size_read, chunk, receive_issue_job_response, read_loop,
}
use multithreaded_network_jo.Client.Process.{
  Reads, Network, Run, main, join_words, send_command, receive_server_response,
  get_server_ip_address, last_address, get_command_line_arguments,
}
use multithreaded_network_jo.Client.Process.Exchange.{typed_words_passed}
use multithreaded_network_jo.Tests.Execution.{zeros}
use multithreaded_network_jo.Tests.Jobs.{ls, ls_words}

typed_words_passed_example :
    (get_client_command_mode (send_command (join_words (codes "issueJob" ∷ ls))).1 ≡ issue_job)
    × (passed (
          get_job_arguments
            (remove_first_word (send_command (join_words (codes "issueJob" ∷ ls))).1 space))
        ≡ ls)
typed_words_passed_example = typed_words_passed ls ls_words (ground arith, (ground arith, tt))

abbrev reads : Reads
reads = record {
  first_answer = (size_read 3, chunk (codes "ab") ∷ chunk (codes "c") ∷ []);
  second_answer = (size_read 2, chunk (codes "de") ∷ []);
  items = [];
  short_answer = (0, chunk []);
}

abbrev network : Network
network = record {
  resolve = λ name. some (codes "127.0.0.1" ∷ []);
  socket_opens = true;
  connects = λ address port. true;
  sends_size = true;
  sends_bytes = 11;
  reads = reads;
}

abbrev argv : List Bytes
argv = codes "jobCommander" ∷ codes "localhost" ∷ codes "8080" ∷ codes "issueJob" ∷ codes "ls" ∷ []

abbrev whole_run : Run
whole_run = record {
  exit_code = 0;
  sent = some (some 11, codes "issueJob ls");
  printed = codes "abc" ∷ codes "de" ∷ [];
}

runs : main zeros length network argv ≡ ok whole_run
unfolding main get_command_line_arguments join_words get_server_ip_address last_address send_command
    c_str receive_server_response get_client_command_mode get_first_word find same_text
    receive_issue_job_response read_loop c_string zeros
runs = refl
