-- ===== src/Tools/StringEditor/Words.antt =====
-- What the two word helpers of src/Tools/stringEditor.cpp return.
use multithreaded_network_jo.Prelude.{
  ℕ, ◌+◌, none, some, [], ◌∷◌, ◌++◌, ◌==◌, Bytes, drop, length, ◌≡◌, refl, arith, Lacks, Bool-cases,
  ◌⊎◌, inl, inr, take-length,
}
use multithreaded_network_jo.Tools.StringEditor.{find, get_first_word, remove_first_word}

-- `find` at a separator behind a text without one.
pub find-append :
    (w rest : Bytes) (sep : ℕ) → Lacks sep w → find (w ++ sep ∷ rest) sep ≡ some (length w)
unfolding find
find-append [] rest sep h = ground arith
find-append (c ∷ w) rest sep h = ground (arith, find-append w rest sep)

pub find-none : (w : Bytes) (sep : ℕ) → Lacks sep w → find w sep ≡ none
unfolding find
find-none [] sep h = refl
find-none (c ∷ w) sep h = ground (arith, find-none w sep)

-- Any text either lacks the separator, or splits at its first occurrence.
pub find_cases :
    (str : Bytes) (sep : ℕ)
    → Lacks sep str ⊎ ((w : Bytes) × (rest : Bytes) × Lacks sep w × (str ≡ w ++ sep ∷ rest))
find_cases [] sep = inl tt
find_cases (c ∷ str) sep = elim (Bool-cases (c == sep)) [
  | inl hit ↦ inr ([], str, tt, ground arith)
  | inr miss ↦ elim (find_cases str sep) [
    | inl none_left ↦ inl (ground arith, none_left)
    | inr (w, rest, lacks, e) ↦ inr (c ∷ w, rest, (ground arith, lacks), ground arith)
  ]
]

drop-suc-length : (v rest : Bytes) (sep : ℕ) → drop (length v + 1) (v ++ sep ∷ rest) ≡ rest
drop-suc-length [] rest sep = ground arith
drop-suc-length (c ∷ v) rest sep = ground (arith, drop-suc-length v rest sep)

-- A word without the separator, then the separator, then any rest: the first word is exactly that
-- word, and removing it leaves exactly the rest.
pub first_word_of_join :
    (w rest : Bytes) (sep : ℕ)
    → Lacks sep w
    → (get_first_word (w ++ sep ∷ rest) sep ≡ w) × (remove_first_word (w ++ sep ∷ rest) sep ≡ rest)
unfolding get_first_word remove_first_word
first_word_of_join w rest sep h = (
  rw (find-append w rest sep h, get_first_word) (take-length w (sep ∷ rest)),
  rw (find-append w rest sep h, remove_first_word) (drop-suc-length w rest sep),
)

-- What a text and a separator come apart into, whatever the text is: with no separator in the text
-- the first word is the whole text and the remainder is empty; otherwise the first word holds no
-- separator, and first word, separator and remainder in this order spell the text.
first_word_cases :
    (str : Bytes) (sep : ℕ)
    → (Lacks sep str × (get_first_word str sep ≡ str) × (remove_first_word str sep ≡ []))
      ⊎ (Lacks sep (get_first_word str sep)
          × (str ≡ get_first_word str sep ++ sep ∷ remove_first_word str sep))
first_word_cases str sep = elim (find_cases str sep) [
  | inl lacks ↦ inl (
    lacks,
    unfold get_first_word in rw (find-none str sep lacks, get_first_word),
    unfold remove_first_word in rw (find-none str sep lacks, remove_first_word),
  )
  | inr (w, rest, lacks, e) ↦
      let (first, left) = first_word_of_join w rest sep lacks in
      inr (rw (e, first) lacks, rw (e, first, left))
]
