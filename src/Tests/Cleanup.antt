-- ===== src/Tests/Cleanup.antt =====
-- The removal of a directory with two files, the second of which cannot be removed.
use multithreaded_network_jo.Prelude.{
  [], ◌∷◌, ◌++◌, true, false, ◌&&◌, not, if◌then◌else◌, codes, same_text, ◌≡◌, refl,
}
use multithreaded_network_jo.Server.Cleanup.{
  Directory, files, all_of, leading, remove_entries, remove_temporary_directory,
  remove_temporary_directory_lem,
}

abbrev temp : Directory
temp = record {
  opens = true;
  entries = codes "." ∷ codes ".." ∷ codes "1.output" ∷ codes "2.output" ∷ [];
  unlinks = λ path. not (same_text path (codes "temp/2.output"));
  rmdirs = true;
}

one_removed : remove_temporary_directory temp (codes "temp") ≡ (false, codes "temp/1.output" ∷ [])
unfolding remove_temporary_directory remove_entries same_text
one_removed = refl

remove_temporary_directory_lem_example : remove_temporary_directory temp (codes "temp") ≡ (
  temp.opens && (all_of temp.unlinks (files (codes "temp") temp.entries) && temp.rmdirs),
  (if temp.opens
      then leading temp.unlinks (files (codes "temp") temp.entries)
        ++ (if all_of temp.unlinks (files (codes "temp") temp.entries) && temp.rmdirs
            then codes "temp" ∷ []
            else [])
      else []),
)
remove_temporary_directory_lem_example = remove_temporary_directory_lem temp (codes "temp")
