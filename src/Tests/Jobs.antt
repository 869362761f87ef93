-- ===== src/Tests/Jobs.antt =====
-- The arguments and the buffers of a job at concrete inputs.
use multithreaded_network_jo.Prelude.{
  ◌+◌, ◌≤◌, ◌≡◌, ◌≢◌, ◌++◌, refl, arith, List, [], ◌∷◌, codes, length, to_string, All, Lacks, Bytes,
}
use multithreaded_network_jo.Server.State.{c_str}
use multithreaded_network_jo.Server.Worker.{create_output_response}
use multithreaded_network_jo.Server.Jobs.{tokens, tokens_from}
use multithreaded_network_jo.Server.Jobs.Response.{response_fits}

two_tokens : tokens (codes " ls  -l ") ≡ codes "ls" ∷ codes "-l" ∷ []
unfolding tokens_from
two_tokens = refl

abbrev pub ls : List Bytes
ls = codes "ls" ∷ codes "-l" ∷ []

pub ls_words : All (λ w. (w ≢ []) × Lacks b' ' w) ls
ls_words = ((ground arith, ground arith), ((ground arith, ground arith), tt))

response_fits_example :
    (length (create_output_response (codes "hello") (codes "job_" ++ to_string 12)) + 1 ≤ 8 + 200)
    × (length (codes "-----" ++ c_str (codes "job_" ++ to_string 12) ++ codes " output start------")
          + 1
        ≤ 100)
    × (length (codes "-----" ++ c_str (codes "job_" ++ to_string 12) ++ codes " output end------")
          + 1
        ≤ 100)
response_fits_example = response_fits (codes "hello") 8 12 (omega arith) (omega arith)
