-- ===== src/Server/Jobs/Passed.antt =====
-- Which arguments `getJobArguments` passes to the program of the job.
use multithreaded_network_jo.Prelude.{
  ℕ, zero, suc, ◌+◌, ◌≤◌, ◌≡◌, ◌≢◌, ◌++◌, append_assoc, refl, arith, Option, none, some, List, [],
  ◌∷◌, ◌==◌, Bytes, length, Lacks, All, ap, if◌then◌else◌, append-nil, ◌∙◌, sym,
}
use multithreaded_network_jo.Server.Jobs.{
  count_breaks, tokens_from, tokens, fill_arguments, get_job_arguments, next_byte,
}

-- What `execvp` reads of the array: the texts before the first null pointer.
abbrev pub passed : List (Option Bytes) → List Bytes
passed [] = []
passed (none ∷ rest) = []
passed (some word ∷ rest) = word ∷ passed rest

-- One more argument is counted than there are breaks, unless the text begins with a space.
abbrev lead : Bytes → ℕ
lead s = if next_byte s == b' ' then 0 else 1

tokens_bound :
    (s : Bytes)
    → (length (tokens_from [] s) ≤ lead s + count_breaks s)
      × ((d : ℕ) (w : Bytes) → length (tokens_from (d ∷ w) s) ≤ 1 + count_breaks s)
unfolding count_breaks tokens_from
tokens_bound [] = (omega arith, λ d w. omega arith)
tokens_bound (c ∷ s) =
    let (fresh, open_word) = tokens_bound s in
    (ground (arith, fresh, open_word c []), λ d w. ground (arith, fresh, open_word d (w ++ c ∷ [])))

passed-none : (k : ℕ) → passed (fill_arguments k []) ≡ []
unfolding fill_arguments
passed-none zero = refl
passed-none (suc k) = refl

passed-fill :
    (k : ℕ) (words : List Bytes) → length words ≤ k → passed (fill_arguments k words) ≡ words
unfolding fill_arguments
passed-fill k [] h = passed-none k
passed-fill zero (word ∷ words) h = absurd (omega arith)
passed-fill (suc k) (word ∷ words) h = ap (λ l. word ∷ l) (passed-fill k words (omega arith))

-- For every job text the array has room for all its words: the program is passed exactly the words
-- that `strtok` finds, none is cut off, and a null pointer follows them.
passed-get_job_arguments : (job : Bytes) → passed (get_job_arguments job) ≡ tokens job
unfolding get_job_arguments
passed-get_job_arguments job =
    passed-fill (1 + count_breaks job) (tokens job) (ground (arith, (tokens_bound job).0))

-- The words of a job that a space separates from each other.
abbrev pub spaced : List Bytes → Bytes
spaced [] = []
spaced (w ∷ []) = w
spaced (w ∷ v ∷ ws) = w ++ b' ' ∷ spaced (v ∷ ws)

tokens_from-append :
    (word v rest : Bytes)
    → Lacks b' ' v
    → tokens_from word (v ++ rest) ≡ tokens_from (word ++ v) rest
unfolding tokens_from
tokens_from-append word [] rest h = rw append-nil
tokens_from-append word (c ∷ v) rest h =
    ground (arith, tokens_from-append (word ++ c ∷ []) v rest, append_assoc word (c ∷ []) v)

tokens_from-word :
    (word : Bytes) (s : Bytes) → word ≢ [] → tokens_from word (b' ' ∷ s) ≡ word ∷ tokens s
unfolding tokens_from
tokens_from-word [] s h = absurd (h refl)
tokens_from-word (d ∷ w) s h = ground arith

tokens_from-end : (word : Bytes) → word ≢ [] → tokens_from word [] ≡ word ∷ []
unfolding tokens_from
tokens_from-end [] h = absurd (h refl)
tokens_from-end (d ∷ w) h = refl

tokens-spaced :
    (words : List Bytes) → All (λ w. (w ≢ []) × Lacks b' ' w) words → tokens (spaced words) ≡ words
unfolding tokens_from
tokens-spaced [] h = refl
tokens-spaced (w ∷ []) h =
    let e : w ++ [] ≡ w = append-nil w in
    ap (tokens_from []) (sym e) ∙ tokens_from-append [] w [] h.0.1 ∙ tokens_from-end w h.0.0
tokens-spaced (w ∷ v ∷ ws) h =
    tokens_from-append [] w (b' ' ∷ spaced (v ∷ ws)) h.0.1
    ∙ tokens_from-word w (spaced (v ∷ ws)) h.0.0
    ∙ ap (λ l. w ∷ l) (tokens-spaced (v ∷ ws) h.1)

-- Non-empty words without spaces, one space between each two: the program is passed these words.
pub passed-spaced :
    (words : List Bytes)
    → All (λ w. (w ≢ []) × Lacks b' ' w) words
    → passed (get_job_arguments (spaced words)) ≡ words
passed-spaced words h = passed-get_job_arguments (spaced words) ∙ tokens-spaced words h
