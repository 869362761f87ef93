-- ===== src/Conversation/Mixed.antt =====
-- Two threads of src/Server that send to one client at the same time. A message is two calls of
-- `send`, and no mutex is held over the two.
use multithreaded_network_jo.Prelude.{ℕ, ◌≡◌, ap, ◌∙◌, arith, List, [], ◌∷◌, ◌++◌, Bytes, length}
use multithreaded_network_jo.Commands.{JobTriplate}
use multithreaded_network_jo.Server.Messages.{submit_message}
use multithreaded_network_jo.Server.State.{Packet, size, text, Server, c_str}
use multithreaded_network_jo.Server.Choice.{proceeds, outputs}
use multithreaded_network_jo.Server.Controller
use multithreaded_network_jo.Server.Controller.{Controller, controller_step, step_at}
use multithreaded_network_jo.Server.Worker
use multithreaded_network_jo.Server.Worker.{create_output_response, worker_step}
use multithreaded_network_jo.Server.System.{System, run}
use multithreaded_network_jo.Server.Induction.{update_same}
use multithreaded_network_jo.Server.Handlers.{Returns}
use multithreaded_network_jo.Server.Races.{
  many, controller_at, worker_at, controller_moves, worker_moves, run-then, controller-run,
  worker-run,
}
use multithreaded_network_jo.Client.Receivers.{SizeRead, Chunk}
use multithreaded_network_jo.Conversation.{packets_for, packets_for-append, Arrives}

-- A step that sends one packet more.
abbrev Adds : ℕ → Packet → Server → Server → Type 0
Adds socket packet s s' = s'.sent ≡ s.sent ++ (socket, packet) ∷ []

sends_size :
    (i : ℕ) (s : Server) (c : Controller) (j : JobTriplate)
    → c.pc ≡ Controller.submit_respond j
    → Returns (many (controller_at i) (proceeds ∷ []) s c) (λ r.
      (r.1.pc ≡ Controller.submit_text j)
      × Adds j.socket_id (size (length (c_str (submit_message j)))) s r.0)
unfolding many controller_step step_at
sends_size i s c j at = ground arith

sends_text :
    (i : ℕ) (s : Server) (c : Controller) (j : JobTriplate)
    → c.pc ≡ Controller.submit_text j
    → Returns (many (controller_at i) (proceeds ∷ []) s c) (λ r.
      (r.1.pc ≡ Controller.submit_signal)
      × Adds j.socket_id (text (c_str (submit_message j))) s r.0)
unfolding many controller_step step_at
sends_text i s c j at = ground arith

sends_response :
    (k : ℕ) (s : Server) (j : JobTriplate) (output : Bytes)
    → let response = c_str (create_output_response output j.job_id) in
      Returns (many (worker_at k) (outputs output ∷ proceeds ∷ []) s (Worker.running j)) (λ r.
        r.0.sent
        ≡ (s.sent ++ (j.socket_id, size (length response)) ∷ [])
          ++ (j.socket_id, text response) ∷ [])
unfolding many worker_step
sends_response k s j output = ground arith

no_Arrives :
    (a b : ℕ) (packets : List Packet) (answers : List (SizeRead × List Chunk))
    → ¬ (Arrives (size a ∷ size b ∷ packets) answers)
no_Arrives a b packets [] h = h
no_Arrives a b packets (x ∷ answers) h = h

four_packets :
    (socket : ℕ) (before : List (ℕ × Packet)) (a b c d : Packet)
    → packets_for socket before ≡ []
    → packets_for socket (
        (((before ++ (socket, a) ∷ []) ++ (socket, b) ∷ []) ++ (socket, c) ∷ [])
        ++ (socket, d) ∷ [])
      ≡ a ∷ b ∷ c ∷ d ∷ []
four_packets socket before a b c d none_yet = ground (
  arith,
  packets_for-append socket (((before ++ (socket, a) ∷ []) ++ (socket, b) ∷ []) ++ (socket, c) ∷ [])
      ((socket, d) ∷ []),
  packets_for-append socket ((before ++ (socket, a) ∷ []) ++ (socket, b) ∷ []) ((socket, c) ∷ []),
  packets_for-append socket (before ++ (socket, a) ∷ []) ((socket, b) ∷ []),
  packets_for-append socket before ((socket, a) ∷ []),
)

-- A controller is about to answer the client of a job, and a worker runs a job of the same client.
-- The controller sends the size of its message, then the worker its whole response, and then the
-- controller the text: the client is sent two sizes and then two texts, the worker's first, so that
-- whatever its reads are, they do not give it whole messages.
pub messages_mixed :
    (i k : ℕ) (y : System) (j ran : JobTriplate) (output : Bytes)
    (answers : List (SizeRead × List Chunk))
    → (y.controllers i).pc ≡ Controller.submit_respond j
    → y.workers k ≡ Worker.running ran
    → ran.socket_id ≡ j.socket_id
    → packets_for j.socket_id y.server.sent ≡ []
    → let answer = c_str (submit_message j) in
      let response = c_str (create_output_response output ran.job_id) in
      Returns
        (run
          (controller_moves i (proceeds ∷ [])
            ++ (worker_moves k (outputs output ∷ proceeds ∷ [])
                ++ controller_moves i (proceeds ∷ [])))
          y)
        (λ z.
          (packets_for j.socket_id z.server.sent
            ≡ size (length answer) ∷ size (length response) ∷ text response ∷ text answer ∷ [])
          × (¬ (Arrives (packets_for j.socket_id z.server.sent) answers)))
messages_mixed i k y j ran output answers at_i at_k same silent =
    let answer = c_str (submit_message j) in
    let response = c_str (create_output_response output ran.job_id) in
    let socket : ℕ = j.socket_id in
    let sent : List (ℕ × Packet) = y.server.sent ++ (socket, size (length answer)) ∷ [] in
    let sent' : List (ℕ × Packet) =
      (sent ++ (socket, size (length response)) ∷ []) ++ (socket, text response) ∷ [] in
    let mixed : List Packet =
      size (length answer) ∷ size (length response) ∷ text response ∷ text answer ∷ [] in
    let First : System → Type 0 = λ z.
      (z.server.sent ≡ sent)
      × ((z.controllers i).pc ≡ Controller.submit_text j)
      × (z.workers k ≡ Worker.running ran) in
    let Second : System → Type 0 =
      λ z. (z.server.sent ≡ sent') × ((z.controllers i).pc ≡ Controller.submit_text j) in
    let End : System → Type 0 = λ z.
      (packets_for socket z.server.sent ≡ mixed)
      × (¬ (Arrives (packets_for socket z.server.sent) answers)) in
    run-then First End (controller_moves i (proceeds ∷ []))
      (worker_moves k (outputs output ∷ proceeds ∷ []) ++ controller_moves i (proceeds ∷ [])) y
      (controller-run _ First i (proceeds ∷ []) y (sends_size i y.server (y.controllers i) j at_i)
        (λ r told. (told.1, ap (λ c. c.pc) (update_same y.controllers i r.1) ∙ told.0, at_k)))
      (λ x first.
        run-then Second End (worker_moves k (outputs output ∷ proceeds ∷ []))
          (controller_moves i (proceeds ∷ [])) x
          (worker-run _ Second k (outputs output ∷ proceeds ∷ []) x
            (rw first.2 (sends_response k x.server ran output))
            (λ r told. (
              told
                  ∙ ap
                      (λ l.
                        (l ++ (ran.socket_id, size (length response)) ∷ [])
                        ++ (ran.socket_id, text response) ∷ [])
                      first.0
                  ∙ ap
                      (λ (n : ℕ).
                        (sent ++ (n, size (length response)) ∷ []) ++ (n, text response) ∷ [])
                      same,
              first.1,
            )))
          (λ z second.
            controller-run _ End i (proceeds ∷ []) z
              (sends_text i z.server (z.controllers i) j second.1)
              (λ r told.
                let all : packets_for socket r.0.sent ≡ mixed =
                  ap (packets_for socket)
                    (told.1 ∙ ap (λ l. l ++ (socket, text answer) ∷ []) second.0)
                  ∙ four_packets socket y.server.sent _ _ _ _ silent in
                (
                  all,
                  rw all (
                      no_Arrives (length answer) (length response)
                        (text response ∷ text answer ∷ []) answers),
                ))))
