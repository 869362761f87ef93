-- ===== src/Tests/Tools.antt =====
-- The helpers of src/Tools and src/Server/commands.cpp at concrete inputs.
use multithreaded_network_jo.Prelude.{◌≡◌, ◌∷◌, [], refl, arith, codes, same_text, to_string, List}
use multithreaded_network_jo.Commands.{
  JobTriplate, get_client_command_mode, invalid, print_triplate,
}
use multithreaded_network_jo.Tools.StringEditor.{get_first_word, remove_first_word, find, space}
use multithreaded_network_jo.Tools.WaitingBufferQueue.Fifo.{Call, insert, get, remove, serve_all}
use multithreaded_network_jo.Tools.WaitingBufferQueue.Search.{queue_of}
use multithreaded_network_jo.Tools.WaitingBufferQueue.Refines.{
  apply_all, answer, apply_all-serve_all,
}

words : get_first_word (codes "stop job_3") space ≡ codes "stop"
unfolding get_first_word find
words = refl

no_second_word : remove_first_word (codes "poll") space ≡ []
unfolding remove_first_word find
no_second_word = refl

mode_of_typo : get_client_command_mode (codes "pol") ≡ invalid
unfolding get_client_command_mode get_first_word find same_text
mode_of_typo = refl

abbrev pub job_1 : JobTriplate
job_1 = record { job_id = codes "job_1"; job = codes "ls -l"; socket_id = 7 }

abbrev pub job_2 : JobTriplate
job_2 = record { job_id = codes "job_2"; job = codes "date"; socket_id = 8 }

printed : print_triplate job_1 ≡ codes "(job_1, ls -l, 7)"
unfolding print_triplate to_string
printed = refl

abbrev calls : List Call
calls = insert job_1 ∷ insert job_2 ∷ remove (codes "job_1") ∷ get ∷ get ∷ []

apply_all-serve_all_example : apply_all calls (queue_of 2 []) ≡ answer 2 (serve_all 2 calls [])
apply_all-serve_all_example = apply_all-serve_all 2 calls [] (omega arith) (omega arith)
