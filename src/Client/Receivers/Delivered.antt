-- ===== src/Client/Receivers/Delivered.antt =====
-- What src/Client/clientReceivers.cpp makes of an answer that the server has sent in full.
use multithreaded_network_jo.Prelude.{
  IsAllocator, c_string-append, c_string-runs_past, length-drop, drop-drop, eq-nil, write-next,
  c_string-last, ℕ, ◌+◌, ◌≡◌, refl, ◌∙◌, sym, ap, arith, some, List, [], ◌∷◌, ◌++◌, append_assoc,
  append-nil, map, true, ltb, Bytes, drop, length, length-append, drop-length, ok, fault,
  past_buffer, Lacks, Bool-cases, inl, inr, le→ltb, ltb→le, if◌then◌else◌, ◌==◌,
}
use native.Mathlib.Nat.{zero-add}
use multithreaded_network_jo.Client.Receivers.{
  size_read, Chunk, chunk, read_loop, finish, receive_issue_job_response, receive_short_response,
  receive_poll_response,
}

abbrev pub joined : List Bytes → Bytes
joined [] = []
joined (b ∷ bs) = b ++ joined bs

-- The loop has the whole text in the array, whatever pieces it came in.
read_loop-joined :
    (chunks : List Bytes) (got left : Bytes) (size : ℕ)
    → length got + length (joined chunks) ≡ size
    → read_loop (map chunk chunks) (length got) size (got ++ left)
      ≡ ok (true, (got ++ joined chunks) ++ drop (length (joined chunks)) left)
unfolding read_loop
read_loop-joined [] got left size e = rw (le→ltb (length got) size (omega arith), append-nil got)
read_loop-joined (b ∷ bs) got left size e = elim (Bool-cases (ltb (length got) size)) [
  | inl more ↦
      rw (more, write-next got b left, sym (length-append got b))
        (read_loop-joined bs (got ++ b) (drop (length b) left) size
            (omega (arith, length-append got b, length-append b (joined bs)))
          ∙ ap (λ l. ok (true, l)) (regroup b bs got left))
  | inr enough ↦
      let none_left : b ++ joined bs ≡ [] =
        eq-nil (b ++ joined bs) (omega (arith, ltb→le (length got) size enough)) in
      rw (enough, none_left, append-nil got)
]
  where
    regroup :
        (b : Bytes) (bs : List Bytes) (got left : Bytes)
        → ((got ++ b) ++ joined bs) ++ drop (length (joined bs)) (drop (length b) left)
          ≡ (got ++ (b ++ joined bs)) ++ drop (length (b ++ joined bs)) left
    regroup b bs got left = rw (
      append_assoc got b (joined bs),
      drop-drop (length (joined bs)) (length b) left,
      length-append b (joined bs),
    )

-- A text without a zero byte that arrives in full, in whatever pieces and whatever the new array
-- held, is what `receiveIssueJobResponse` returns.
pub issue_response_received :
    (fresh : ℕ → Bytes) (chunks : List Bytes)
    → IsAllocator fresh
    → Lacks 0 (joined chunks)
    → receive_issue_job_response fresh (size_read (length (joined chunks))) (map chunk chunks)
      ≡ ok (some (joined chunks))
unfolding receive_issue_job_response finish
issue_response_received fresh chunks alloc lacks =
    let text : Bytes = joined chunks in
    let memory : Bytes = fresh (length text + 1) in
    let left : Bytes = drop (length text) memory in
    rw (
      read_loop-joined chunks [] memory (length text) (omega arith),
      write-next text (0 ∷ []) left,
      append_assoc text (0 ∷ []) (drop 1 left),
      c_string-append text (drop 1 left) lacks,
    )

-- The same text in one piece, read by the receivers of the other answers: they return it exactly if
-- the byte that the array held behind it was zero; otherwise the C string runs past the array.
pub short_response_received :
    (fresh : ℕ → Bytes) (m before : Bytes) (last : ℕ)
    → Lacks 0 m
    → fresh (length m + 1) ≡ before ++ last ∷ []
    → length before ≡ length m
    → receive_short_response fresh (length m) (chunk m)
      ≡ (if last == 0 then ok m else fault past_buffer)
unfolding receive_short_response
short_response_received fresh m before last lacks e len =
    rw (zero-add, e, sym len, drop-length before (last ∷ [])) (c_string-last m last lacks)

-- No job in the list: there is nothing to read, and the text is empty.
pub poll_response_empty : (fresh : ℕ → Bytes) → receive_poll_response fresh [] ≡ ok []
unfolding receive_poll_response
poll_response_empty fresh = refl

-- `receivePollResponse` makes no room for a zero byte: the first job in the list, if its text holds
-- none and arrives in full, already runs past its array.
pub poll_response_runs_past :
    (fresh : ℕ → Bytes) (m : Bytes) (items : List (ℕ × Chunk))
    → IsAllocator fresh
    → Lacks 0 m
    → receive_poll_response fresh ((length m, chunk m) ∷ items) ≡ fault past_buffer
unfolding receive_poll_response
poll_response_runs_past fresh m items alloc lacks =
    let nothing_left : drop (0 + length m) (fresh (length m)) ≡ [] =
      eq-nil _ (omega (arith, length-drop (0 + length m) (fresh (length m)), alloc (length m))) in
    rw (nothing_left, append-nil m, c_string-runs_past m lacks)
