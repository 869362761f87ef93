-- ===== src/Client/Process/Typed.antt =====
-- The words on the command line of src/App/jobCommander.cpp as the server reads them: the text that
-- `getCommandLineArguments` joins, taken apart again by the helpers of src/Tools/stringEditor.cpp.
use multithreaded_network_jo.Prelude.{ℕ, ◌≡◌, refl, arith, List, [], ◌∷◌, ◌++◌, Bytes, All, Lacks}
use multithreaded_network_jo.Tools.StringEditor.{get_first_word, remove_first_word, space}
use multithreaded_network_jo.Tools.StringEditor.Words.{first_word_of_join, find-none}
use multithreaded_network_jo.Server.State.{c_str}
use multithreaded_network_jo.Client.Process.{join_words, send_command}

pub c_str-Lacks : (s : Bytes) → Lacks 0 s → c_str s ≡ s
unfolding c_str
c_str-Lacks [] h = refl
c_str-Lacks (c ∷ s) h = ground (arith, c_str-Lacks s h.1)

pub Lacks-append : (b : ℕ) (xs ys : Bytes) → Lacks b xs → Lacks b ys → Lacks b (xs ++ ys)
Lacks-append b [] ys h h' = h'
Lacks-append b (x ∷ xs) ys h h' = (h.0, Lacks-append b xs ys h.1 h')

Lacks-join_words : (words : List Bytes) → All (Lacks 0) words → Lacks 0 (join_words words)
unfolding join_words
Lacks-join_words [] h = tt
Lacks-join_words (w ∷ []) h = h.0
Lacks-join_words (w ∷ v ∷ ws) h =
    Lacks-append 0 w (space ∷ join_words (v ∷ ws)) h.0 (omega arith, Lacks-join_words (v ∷ ws) h.1)

-- The text that is sent for words without a zero byte.
pub sent_text :
    (words : List Bytes)
    → All (Lacks 0) words
    → (send_command (join_words words)).1 ≡ join_words words
unfolding send_command
sent_text words nul = c_str-Lacks _ (Lacks-join_words words nul)

pub first_typed :
    (keyword : Bytes) (words : List Bytes)
    → Lacks space keyword
    → get_first_word (join_words (keyword ∷ words)) space ≡ keyword
unfolding join_words
first_typed keyword [] lacks =
    unfold get_first_word in rw (find-none keyword space lacks, get_first_word)
first_typed keyword (w ∷ ws) lacks =
    (first_word_of_join keyword (join_words (w ∷ ws)) space lacks).0

pub rest_typed :
    (keyword : Bytes) (words : List Bytes)
    → Lacks space keyword
    → remove_first_word (join_words (keyword ∷ words)) space ≡ join_words words
unfolding join_words
rest_typed keyword [] lacks =
    unfold remove_first_word in rw (find-none keyword space lacks, remove_first_word)
rest_typed keyword (w ∷ ws) lacks = (first_word_of_join keyword (join_words (w ∷ ws)) space lacks).1
