-- ===== src/Tools/StringEditor.antt =====
-- src/Tools/stringEditor.cpp: the first word of a command, and the command without it.
pub mod Words
use multithreaded_network_jo.Prelude.{
  ℕ, zero, suc, ◌+◌, Option, none, some, List, [], ◌∷◌, Bool, true, false, ◌==◌, Bytes, take, drop,
  if◌then◌else◌,
}
use mathlib.Core.Option

-- `str.find(seperator)`; `none` is `npos`.
unfoldable pub find : Bytes → ℕ → Option ℕ
find [] seperator = none
find (c ∷ str) seperator =
    let later = Option.map suc (find str seperator) in if c == seperator then some 0 else later

-- The default argument of both helpers.
abbrev pub space : ℕ
space = b' '

unfoldable pub get_first_word : Bytes → ℕ → Bytes
get_first_word str seperator = elim (find str seperator) [ none ↦ str | some pos ↦ take pos str ]

unfoldable pub remove_first_word : Bytes → ℕ → Bytes
remove_first_word str seperator = elim (find str seperator) [
  | none ↦ []
  | some pos ↦ drop (pos + 1) str
]
