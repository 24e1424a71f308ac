-- ===== src/Tracker/Files/Keeps.antt =====
-- The invariant of `PendingFileTracker` (server/post_tracker.go), and what its operations do to
-- the files of a post and to their number.
use mattermost_plugin_matrix.Prelude.{
  ℕ, ◌+◌, ◌%◌, ◌<◌, ◌≡◌, refl, none, List, [], ◌∷◌, ◌++◌, length, keep, eqb, arith, Text, ◌==◌,
  eq_iff, eq_refl, length-append, length-keep, Bool-cases, inl, inr, Option-cases,
}
use mattermost_plugin_matrix.Prelude.Dict
use mattermost_plugin_matrix.Prelude.Dict.{
  Dict, IsDict, get-put, get-put_self, get-remove, put-IsDict, remove-IsDict,
}
use mattermost_plugin_matrix.Tracker.Files.{
  PendingFile, FileTracker, is_fresh, files_of, sweep, cleanup_old_files, add_file, get_files,
  without_file, remove_file, total, size,
}

-- Every post in the map has a file.
abbrev pub IsFilled : Dict (List PendingFile) → Type 0
IsFilled [] = Unit
IsFilled ((k, files) ∷ m) = (0 < length files) × IsFilled m

-- No post stands twice in the map, and none without a file.
pub record IsValid (pft : FileTracker) : Type 0 where
  pub distinct : IsDict pft.files_by_post
  pub filled : IsFilled pft.files_by_post

sweep-absent :
    (now : ℕ) (k : Text) (m : Dict (List PendingFile))
    → Dict.get k m ≡ none
    → Dict.get k (sweep now m).0 ≡ none
unfolding sweep Dict.get
sweep-absent now k [] h = refl
sweep-absent now k ((j, files) ∷ m) h = ground (arith, sweep-absent now k m)

sweep-IsDict : (now : ℕ) (m : Dict (List PendingFile)) → IsDict m → IsDict (sweep now m).0
unfolding sweep
sweep-IsDict now [] d = tt
sweep-IsDict now ((j, files) ∷ m) d = ground (arith, sweep-IsDict now m d.1, sweep-absent now j m)

sweep-IsFilled : (now : ℕ) (m : Dict (List PendingFile)) → IsFilled (sweep now m).0
unfolding sweep
sweep-IsFilled now [] = tt
sweep-IsFilled now ((j, files) ∷ m) = ground (arith, sweep-IsFilled now m)

empty_of_length : (l : List PendingFile) → length l ≡ 0 → l ≡ []
empty_of_length [] h = refl
empty_of_length (x ∷ l) h = absurd (omega arith)

files_of-sweep :
    (now : ℕ) (k : Text) (m : Dict (List PendingFile))
    → IsDict m
    → files_of k (sweep now m).0 ≡ keep (is_fresh now) (files_of k m)
unfolding files_of sweep Dict.get
files_of-sweep now k [] d = refl
files_of-sweep now k ((j, files) ∷ m) d = elim (Bool-cases (j == k)) [
  | inr other ↦ ground (arith, files_of-sweep now k m d.1)
  | inl same ↦ elim (Bool-cases (eqb (length (keep (is_fresh now) files)) 0)) [
    | inr some_left ↦ ground arith
    | inl none_left ↦
        ground
          (arith, empty_of_length (keep (is_fresh now) files), eq_iff j k, sweep-absent now j m)
  ]
]

total-sweep :
    (now : ℕ) (m : Dict (List PendingFile)) → total (sweep now m).0 + (sweep now m).1 ≡ total m
unfolding total sweep
total-sweep now [] = omega arith
total-sweep now ((j, files) ∷ m) =
    ground (arith, total-sweep now m, length-keep (is_fresh now) files)

-- `CleanupOldFiles` keeps, for every post, exactly the files of the last half hour, in order, and
-- returns the number of files that it removed.
pub cleanup_old_files_lem :
    (now : ℕ) (pft : FileTracker) (k : Text)
    → IsValid pft
    → (files_of k (cleanup_old_files now pft).0.files_by_post
        ≡ keep (is_fresh now) (files_of k pft.files_by_post))
      × (size (cleanup_old_files now pft).0 + (cleanup_old_files now pft).1 ≡ size pft)
unfolding cleanup_old_files size
cleanup_old_files_lem now pft k v =
    (files_of-sweep now k pft.files_by_post v.distinct, total-sweep now pft.files_by_post)

pub cleanup-IsValid :
    (now : ℕ) (pft : FileTracker) → IsValid pft → IsValid (cleanup_old_files now pft).0
unfolding cleanup_old_files
cleanup-IsValid now pft v = record {
  distinct = sweep-IsDict now pft.files_by_post v.distinct;
  filled = sweep-IsFilled now pft.files_by_post;
}

put-IsFilled :
    (k : Text) (files : List PendingFile) (m : Dict (List PendingFile))
    → 0 < length files
    → IsFilled m
    → IsFilled (Dict.put k files m)
unfolding Dict.put
put-IsFilled k files [] h f = (h, tt)
put-IsFilled k files ((j, x) ∷ m) h f = ground (arith, put-IsFilled k files m h f.1)

remove-IsFilled : (k : Text) (m : Dict (List PendingFile)) → IsFilled m → IsFilled (Dict.remove k m)
unfolding Dict.remove
remove-IsFilled k [] f = tt
remove-IsFilled k ((j, x) ∷ m) f = ground (arith, remove-IsFilled k m f.1)

remove-put-IsFilled :
    (k : Text) (files : List PendingFile) (m : Dict (List PendingFile))
    → IsFilled m
    → IsFilled (Dict.remove k (Dict.put k files m))
unfolding Dict.put Dict.remove
remove-put-IsFilled k files [] f = ground (arith, eq_refl k)
remove-put-IsFilled k files ((j, x) ∷ m) f =
    ground (arith, eq_refl k, remove-IsFilled k m f.1, remove-put-IsFilled k files m f.1)

unfoldable pub with_file : ℕ → FileTracker → Text → PendingFile → FileTracker
with_file now pft k file = record pft {
  files_by_post =
      Dict.put k (files_of k pft.files_by_post ++ record file { uploaded_at = now } ∷ [])
        pft.files_by_post;
  add_counter = pft.add_counter + 1;
}

pub with_file-IsValid :
    (now : ℕ) (pft : FileTracker) (k : Text) (file : PendingFile)
    → IsValid pft
    → IsValid (with_file now pft k file)
unfolding with_file
with_file-IsValid now pft k file v =
    let files = files_of k pft.files_by_post in
    let stamped : PendingFile = record file { uploaded_at = now } in
    record {
      distinct = put-IsDict k (files ++ stamped ∷ []) pft.files_by_post v.distinct;
      filled =
          put-IsFilled k (files ++ stamped ∷ []) pft.files_by_post
            (omega (arith, length-append files (stamped ∷ []))) v.filled;
    }

-- `AddFile` keeps the invariant.
pub add_file-IsValid :
    (now : ℕ) (pft : FileTracker) (k : Text) (file : PendingFile)
    → IsValid pft
    → IsValid (add_file now pft k file)
unfolding add_file
add_file-IsValid now pft k file v =
    let w = with_file-IsValid now pft k file v in
    elim (Bool-cases (eqb ((pft.add_counter + 1) % pft.cleanup_freq) 0)) [
      | inl due ↦ rw due (unfold with_file in cleanup-IsValid now (with_file now pft k file) w)
      | inr early ↦ rw early (unfold with_file in w)
    ]

pub remove_file-IsValid :
    (pft : FileTracker) (k f : Text) → IsValid pft → IsValid (remove_file pft k f).0
unfolding remove_file
remove_file-IsValid pft k f v =
    elim (Option-cases (without_file f (files_of k pft.files_by_post))) [
      | inl missing ↦ rw (missing, remove_file) v
      | inr (left, found) ↦ elim (Bool-cases (eqb (length left) 0)) [
        | inl last ↦
            rw (found, remove_file, last)
              (record {
                distinct =
                    remove-IsDict k (Dict.put k left pft.files_by_post)
                      (put-IsDict k left pft.files_by_post v.distinct);
                filled = remove-put-IsFilled k left pft.files_by_post v.filled;
              })
        | inr others ↦
            rw (found, remove_file, others)
              (record {
                distinct = put-IsDict k left pft.files_by_post v.distinct;
                filled = put-IsFilled k left pft.files_by_post (ground arith) v.filled;
              })
      ]
    ]

pub get_files-IsValid : (pft : FileTracker) (k : Text) → IsValid pft → IsValid (get_files pft k).0
unfolding get_files
get_files-IsValid pft k v = record {
  distinct = remove-IsDict k pft.files_by_post v.distinct;
  filled = remove-IsFilled k pft.files_by_post v.filled;
}
