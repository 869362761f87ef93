-- ===== src/Server/Jobs/Response.antt =====
-- The buffers of `createOutputResponse` in src/Server/Threads/workerThread.cpp.
use multithreaded_network_jo.Prelude.{
  ℕ, ◌+◌, ◌≤◌, ◌<◌, ◌^◌, ◌≡◌, ◌++◌, ◌∷◌, [], arith, Bytes, codes, length, length-append, to_string,
  length-to_string,
}
use multithreaded_network_jo.Server.State.{c_str}
use multithreaded_network_jo.Server.Worker.{create_output_response}

length-c_str : (s : Bytes) → length (c_str s) ≤ length s
unfolding c_str
length-c_str [] = omega arith
length-c_str (c ∷ s) = ground (arith, length-c_str s)

length_response :
    (output job_id : Bytes)
    → length (create_output_response output job_id)
      ≡ length (c_str job_id) + length (c_str job_id) + length (c_str output) + 48
unfolding create_output_response
length_response output job_id = simp length-append (omega arith)

-- The array for the response has 200 bytes more than the output, and those for its first and its last
-- line have 100 bytes each. For every identifier that the server gives out and every output of
-- `size` bytes, both lines and the response fit with the zero byte behind them.
pub response_fits :
    (output : Bytes) (size k : ℕ)
    → length output ≤ size
    → k < 2 ^ 32
    → let job_id = codes "job_" ++ to_string k in
      (length (create_output_response output job_id) + 1 ≤ size + 200)
      × (length (codes "-----" ++ c_str job_id ++ codes " output start------") + 1 ≤ 100)
      × (length (codes "-----" ++ c_str job_id ++ codes " output end------") + 1 ≤ 100)
response_fits output size k h small =
    let job_id = codes "job_" ++ to_string k in
    let short : length (c_str job_id) ≤ 14 =
      omega (arith, length-c_str job_id, length-to_string k small) in
    (
      omega (arith, length_response output job_id, length-c_str output, short),
      simp length-append (omega (arith, short)),
      simp length-append (omega (arith, short)),
    )
