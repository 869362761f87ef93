-- ===== src/Server/Files/Reading.antt =====
-- When the loop of `readFile` in src/Server/Threads/workerThread.cpp ends, and with what.
use multithreaded_network_jo.Prelude.{
  ℕ, zero, suc, ◌+◌, ◌-◌, ◌<◌, ◌≤◌, ◌≡◌, subst, ap, ◌∙◌, ◌⊎◌, refl, sym, arith, Option, some, [],
  ◌∷◌, ◌++◌, true, Bytes, length, drop, drop-drop, length-append, append_assoc, append-nil,
  write_at, write-next, length-drop, eq-nil, IsAllocator, ok, fault, endless_loop, lt→ltb, le→ltb,
}
use multithreaded_network_jo.Server.Files.{OpenFile, read_rounds, read_file, terminated}

-- `read` of a regular file that holds the text, behind the bytes already read: at most so many of the
-- bytes that are left, and none only where none are left.
abbrev pub Serves : (ℕ → ℕ → Option Bytes) → Bytes → Type 0
Serves read content =
    (before rest : Bytes) (count : ℕ)
    → content ≡ before ++ rest
    → 0 < count
    → (piece : Bytes) × (later : Bytes) × (rest ≡ piece ++ later)
      × (length piece ≤ count)
      × (length rest ≡ 0 ⊎ (0 < length piece))
      × (read (length before) count ≡ some piece)

module _ (read : ℕ → ℕ → Option Bytes) (content : Bytes) (serves : Serves read content) where
  rounds_content :
      (fuel : ℕ) (before rest left : Bytes)
      → content ≡ before ++ rest
      → length rest < fuel
      → read_rounds fuel read (length before) (length content) (before ++ left)
        ≡ ok (some (length content, content ++ drop (length rest) left))
  unfolding read_rounds
  rounds_content zero before rest left e h = absurd (omega arith)
  rounds_content (suc fuel) before [] left e h =
      let same : content ≡ before = e ∙ append-nil before in
      rw (le→ltb (length before) (length content) (omega (arith, ap length same)), same)
  rounds_content (suc fuel) before (r ∷ rest) left e h =
      let len : length content ≡ length before + suc (length rest) =
        ap length e ∙ length-append before (r ∷ rest) in
      let (piece, later, split, small, some_byte, gives) =
        serves before (r ∷ rest) (length content - length before) e (omega arith) in
      let lens : suc (length rest) ≡ length piece + length later =
        ap length split ∙ length-append piece later in
      rw
        (
          lt→ltb (length before) (length content) (omega arith),
          gives,
          write-next before piece left,
          sym (length-append before piece),
        )
        (rounds_content fuel (before ++ piece) later (drop (length piece) left)
            (e ∙ ap (λ l. before ++ l) split ∙ sym (append_assoc before piece later))
            (omega (arith, some_byte))
          ∙ rw (
            drop-drop (length later) (length piece) left,
            sym (length-append piece later),
            sym split,
          ))

  rounds_endless :
      (fuel size total : ℕ) (before rest memory : Bytes)
      → content ≡ before ++ rest
      → total ≡ length before
      → length content < size
      → read_rounds fuel read total size memory ≡ fault endless_loop
  unfolding read_rounds
  rounds_endless zero size total before rest memory e at h = refl
  rounds_endless (suc fuel) size total before rest memory e at h =
      let len : length content ≡ length before + length rest =
        ap length e ∙ length-append before rest in
      let (piece, later, split, small, some_byte, gives) =
        serves before rest (size - length before) e (omega arith) in
      let gives_there : read total (size - total) ≡ some piece =
        subst (λ k. read k (size - k) ≡ some piece) (sym at) gives in
      rw (lt→ltb total size (omega arith), gives_there)
        (rounds_endless fuel size (total + length piece) (before ++ piece) later
          (write_at total piece memory)
          (e ∙ ap (λ l. before ++ l) split ∙ sym (append_assoc before piece later))
          (omega (arith, length-append before piece)) h)

-- The loop of `readFile` ends on a file that keeps its size, however few bytes each `read` gives
-- (at least one where one is left), and the caller has exactly the text of the file, a zero byte
-- behind it, and its length. More rounds than the file has bytes are never needed.
pub read_file-content :
    (fresh : ℕ → Bytes) (fuel : ℕ) (file : OpenFile) (content : Bytes)
    → IsAllocator fresh
    → file.opens ≡ true
    → file.stat_size ≡ some (length content)
    → Serves file.read content
    → length content < fuel
    → read_file fresh fuel file ≡ ok (some (length content, content ++ 0 ∷ []))
unfolding read_file terminated
read_file-content fresh fuel file content alloc opens size serves enough =
    let memory : Bytes = fresh (length content + 1) in
    let left : Bytes = drop (length content) memory in
    let last : drop 1 left ≡ [] = eq-nil (drop 1 left) (
      omega (
        arith,
        length-drop 1 left,
        length-drop (length content) memory,
        alloc (length content + 1),
      )) in
    rw (
      opens,
      size,
      read_file,
      rounds_content file.read content serves fuel [] content memory refl enough,
      write-next content (0 ∷ []) left,
      last,
      append-nil,
    )

-- A file that has become shorter than the size that `fstat` gave: `read` gives no bytes at its end,
-- and the loop goes on for ever, whatever the number of rounds.
pub read_file-endless :
    (fresh : ℕ → Bytes) (fuel size : ℕ) (file : OpenFile) (content : Bytes)
    → file.opens ≡ true
    → file.stat_size ≡ some size
    → Serves file.read content
    → length content < size
    → read_file fresh fuel file ≡ fault endless_loop
unfolding read_file
read_file-endless fresh fuel size file content opens stat serves short = rw (
  opens,
  stat,
  read_file,
  rounds_endless file.read content serves fuel size 0 [] content (fresh (size + 1)) refl refl short,
)
