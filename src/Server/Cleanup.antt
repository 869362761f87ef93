-- ===== src/Server/Cleanup.antt =====
-- `removeTeporaryDirectory` of src/Server/server.cpp: the end of `run` removes the files with the
-- outputs of the jobs, and their directory.
use multithreaded_network_jo.Prelude.{
  List, [], ◌∷◌, ◌++◌, Bool, true, false, ◌&&◌, ◌||◌, not, if◌then◌else◌, Bytes, codes, same_text,
  ◌≡◌, refl, append-nil,
}

-- The answers of the operating system: whether the directory opens, the names that `readdir` gives,
-- whether a path can be unlinked, and whether the directory itself can be removed.
pub record Directory : Type 0 where
  pub opens : Bool
  pub entries : List Bytes
  pub unlinks : Bytes → Bool
  pub rmdirs : Bool

abbrev pub entry_path : Bytes → Bytes → Bytes
entry_path directory_path entry_name = directory_path ++ (codes "/" ++ entry_name)

abbrev pub is_dots : Bytes → Bool
is_dots entry_name = same_text entry_name (codes ".") || same_text entry_name (codes "..")

-- The loop over the entries: whether it came to its end, and the paths that it has removed.
unfoldable pub remove_entries : (Bytes → Bool) → Bytes → List Bytes → Bool × List Bytes
remove_entries unlinks directory_path [] = (true, [])
remove_entries unlinks directory_path (entry_name ∷ entries) =
    let path = entry_path directory_path entry_name in
    let rest = remove_entries unlinks directory_path entries in
    if is_dots entry_name
    then rest
    else if unlinks path
    then (rest.0, path ∷ rest.1)
    else (false, [])

-- The answer of the function, and the paths that it has removed.
unfoldable pub remove_temporary_directory : Directory → Bytes → Bool × List Bytes
unfolding remove_entries
remove_temporary_directory d directory_path =
    let loop = remove_entries d.unlinks directory_path d.entries in
    if not d.opens
    then (false, [])
    else if not loop.0
    then loop
    else if d.rmdirs
    then (true, loop.1 ++ directory_path ∷ [])
    else (false, loop.1)

-- The paths of the files in a directory.
abbrev pub files : Bytes → List Bytes → List Bytes
files directory_path [] = []
files directory_path (entry_name ∷ entries) =
    if is_dots entry_name
    then files directory_path entries
    else entry_path directory_path entry_name ∷ files directory_path entries

abbrev pub all_of : (Bytes → Bool) → List Bytes → Bool
all_of test [] = true
all_of test (path ∷ paths) = test path && all_of test paths

-- The paths before the first that does not pass.
abbrev pub leading : (Bytes → Bool) → List Bytes → List Bytes
leading test [] = []
leading test (path ∷ paths) = if test path then path ∷ leading test paths else []

entry_step :
    (unlinks : Bytes → Bool) (dots removed : Bool) (path : Bytes) (rest : Bool × List Bytes)
    (others : List Bytes)
    → rest ≡ (all_of unlinks others, leading unlinks others)
    → unlinks path ≡ removed
    → (if dots then rest else if removed then (rest.0, path ∷ rest.1) else (false, [])) ≡ (
      all_of unlinks (if dots then others else path ∷ others),
      leading unlinks (if dots then others else path ∷ others),
    )
entry_step unlinks true removed path rest others e h = e
entry_step unlinks false true path rest others e h = rw (e, h)
entry_step unlinks false false path rest others e h = rw h

remove_entries_lem :
    (unlinks : Bytes → Bool) (directory_path : Bytes) (entries : List Bytes)
    → remove_entries unlinks directory_path entries ≡ (
      all_of unlinks (files directory_path entries),
      leading unlinks (files directory_path entries),
    )
unfolding remove_entries
remove_entries_lem unlinks directory_path [] = refl
remove_entries_lem unlinks directory_path (entry_name ∷ entries) =
    entry_step unlinks (is_dots entry_name) (unlinks path) path _ (files directory_path entries)
      (remove_entries_lem unlinks directory_path entries) refl
  where
    path : Bytes
    path = entry_path directory_path entry_name

-- What a removal that got through the loop with the answer `all` comes to.
abbrev after_loop : Bool → Bool → Bool → List Bytes → Bytes → Bool × List Bytes
after_loop opens all rmdirs removed directory_path =
    if not opens
    then (false, [])
    else if not all
    then (all, removed)
    else if rmdirs
    then (true, removed ++ directory_path ∷ [])
    else (false, removed)

outcome :
    (opens all rmdirs : Bool) (removed : List Bytes) (directory_path : Bytes)
    → after_loop opens all rmdirs removed directory_path ≡ (
      opens && (all && rmdirs),
      (if opens then removed ++ (if all && rmdirs then directory_path ∷ [] else []) else []),
    )
outcome false all rmdirs removed directory_path = refl
outcome true false rmdirs removed directory_path = rw append-nil
outcome true true false removed directory_path = rw append-nil
outcome true true true removed directory_path = refl

-- A directory that opens: the files are removed in their order up to the first that cannot be; the
-- directory follows exactly if there was none such and it can be removed itself, and exactly then is
-- the answer true. A directory that does not open is left as it is, with the answer false.
pub remove_temporary_directory_lem :
    (d : Directory) (directory_path : Bytes)
    → let all = files directory_path d.entries in
      remove_temporary_directory d directory_path ≡ (
        d.opens && (all_of d.unlinks all && d.rmdirs),
        (if d.opens
            then leading d.unlinks all
              ++ (if all_of d.unlinks all && d.rmdirs then directory_path ∷ [] else [])
            else []),
      )
unfolding remove_temporary_directory
remove_temporary_directory_lem d directory_path =
    rw (remove_entries_lem d.unlinks directory_path d.entries)
      (outcome d.opens (all_of d.unlinks all) d.rmdirs (leading d.unlinks all) directory_path)
  where
    all : List Bytes
    all = files directory_path d.entries
