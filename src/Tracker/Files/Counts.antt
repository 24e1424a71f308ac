-- ===== src/Tracker/Files/Counts.antt =====
-- Where a pending file (server/post_tracker.go) is after a call, and how many there are.
use mattermost_plugin_matrix.Prelude.{
  ℕ, ◌+◌, ◌%◌, ◌≡◌, refl, none, some, List, [], ◌∷◌, ◌++◌, length, keep, eqb, if◌then◌else◌, arith,
  Text, ◌==◌, eq_iff, eq_refl, inl, inr, Option-cases,
}
use mattermost_plugin_matrix.Prelude.Dict
use mattermost_plugin_matrix.Prelude.Dict.{
  Dict, IsDict, get-put, get-put_self, get-remove, put-IsDict, remove-IsDict,
}
use mattermost_plugin_matrix.Tracker.Files.{
  PendingFile, FileTracker, is_fresh, files_of, add_file, get_files, without_file, remove_file,
  total, size,
}
use mattermost_plugin_matrix.Tracker.Files.Keeps.{
  IsValid, cleanup_old_files_lem, with_file, with_file-IsValid,
}

files_of-put :
    (k j : Text) (files : List PendingFile) (m : Dict (List PendingFile))
    → files_of j (Dict.put k files m) ≡ (if k == j then files else files_of j m)
unfolding files_of
files_of-put k j files m = ground (arith, get-put k j files m)

files_of-remove :
    (k j : Text) (m : Dict (List PendingFile))
    → files_of j (Dict.remove k m) ≡ (if k == j then [] else files_of j m)
unfolding files_of
files_of-remove k j m = ground (arith, get-remove k j m)

total-put :
    (k : Text) (files : List PendingFile) (m : Dict (List PendingFile))
    → total (Dict.put k files m) + length (files_of k m) ≡ total m + length files
unfolding total Dict.put files_of Dict.get
total-put k files [] = omega arith
total-put k files ((j, x) ∷ m) = ground (arith, total-put k files m)

total-remove_absent :
    (k : Text) (m : Dict (List PendingFile))
    → Dict.get k m ≡ none
    → total (Dict.remove k m) ≡ total m
unfolding total Dict.remove Dict.get
total-remove_absent k [] h = refl
total-remove_absent k ((j, x) ∷ m) h = ground (arith, total-remove_absent k m)

total-remove :
    (k : Text) (m : Dict (List PendingFile))
    → IsDict m
    → total (Dict.remove k m) + length (files_of k m) ≡ total m
unfolding total Dict.remove files_of Dict.get
total-remove k [] d = omega arith
total-remove k ((j, x) ∷ m) d =
    ground (arith, eq_iff j k, total-remove k m d.1, total-remove_absent j m d.0)

length-without_file :
    (f : Text) (files left : List PendingFile)
    → without_file f files ≡ some left
    → length left + 1 ≡ length files
unfolding without_file
length-without_file f [] left h = ground arith
length-without_file f (x ∷ files) left h = elim (Option-cases (without_file f files)) [
  | inl missing ↦ ground arith
  | inr (rest, found) ↦ ground (arith, length-without_file f files rest found)
]

-- `AddFile` appends the file, stamped with the time of the call, to those of its post, and leaves
-- the other posts alone; every `cleanup_freq`-th call then drops what is older than half an hour.
pub add_file_lem :
    (now : ℕ) (pft : FileTracker) (k j : Text) (file : PendingFile)
    → IsValid pft
    → files_of j (add_file now pft k file).files_by_post ≡ (
        let files =
          (if k == j
            then files_of k pft.files_by_post ++ record file { uploaded_at = now } ∷ []
            else files_of j pft.files_by_post) in
        if eqb ((pft.add_counter + 1) % pft.cleanup_freq) 0
        then keep (is_fresh now) files
        else files)
unfolding add_file with_file
add_file_lem now pft k j file v = ground (
  arith,
  files_of-put k j (files_of k pft.files_by_post ++ record file { uploaded_at = now } ∷ [])
      pft.files_by_post,
  (cleanup_old_files_lem now (with_file now pft k file) j (with_file-IsValid now pft k file v)).0,
)

-- `GetFiles` returns the files of the post and removes them, and those alone.
pub get_files_lem :
    (pft : FileTracker) (k j : Text)
    → IsValid pft
    → ((get_files pft k).1 ≡ files_of k pft.files_by_post)
      × (files_of j (get_files pft k).0.files_by_post
          ≡ (if k == j then [] else files_of j pft.files_by_post))
      × (size (get_files pft k).0 + length (get_files pft k).1 ≡ size pft)
unfolding get_files size
get_files_lem pft k j v =
    (refl, files_of-remove k j pft.files_by_post, total-remove k pft.files_by_post v.distinct)

-- `RemoveFile` that returns true has removed one file, of that post; one that returns false has
-- not changed the number of files. The files of the other posts stay as they are.
pub remove_file_lem :
    (pft : FileTracker) (k f j : Text)
    → IsValid pft
    → ((if (remove_file pft k f).1
          then size (remove_file pft k f).0 + 1
          else size (remove_file pft k f).0)
        ≡ size pft)
      × ((if k == j then [] else files_of j (remove_file pft k f).0.files_by_post)
          ≡ (if k == j then [] else files_of j pft.files_by_post))
unfolding remove_file size
remove_file_lem pft k f j v = elim (Option-cases (without_file f (files_of k pft.files_by_post))) [
  | inl missing ↦ ground arith
  | inr (left, found) ↦ ground (
    arith,
    length-without_file f (files_of k pft.files_by_post) left found,
    total-put k left pft.files_by_post,
    total-remove k (Dict.put k left pft.files_by_post)
        (put-IsDict k left pft.files_by_post v.distinct),
    files_of-put k k left pft.files_by_post,
    files_of-put k j left pft.files_by_post,
    files_of-remove k j (Dict.put k left pft.files_by_post),
    eq_refl k,
  )
]
