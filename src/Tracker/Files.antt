-- ===== src/Tracker/Files.antt =====
-- `PendingFileTracker` of server/post_tracker.go: files uploaded for posts that have not arrived.
-- `now` is `time.Now().UnixMilli()` in the call. The `*PendingFile` pointers are not shared with
-- the callers after `AddFile`, so a file is a value here.
pub mod Keeps
pub mod Counts
use mattermost_plugin_matrix.Prelude.{
  ℕ, ◌+◌, ◌-◌, ◌%◌, Bool, true, false, not, Option, none, some, List, [], ◌∷◌, ◌++◌, length, keep,
  tally, ltb, eqb, if◌then◌else◌, Text, ◌==◌,
}
use mattermost_plugin_matrix.Prelude.Dict
use mattermost_plugin_matrix.Prelude.Dict.{Dict}

-- `PendingFile`
pub record PendingFile : Type 0 where
  pub file_id : Text
  pub filename : Text
  pub mxc_uri : Text
  pub mime_type : Text
  pub size : ℕ
  pub uploaded_at : ℕ

pub record FileTracker : Type 0 where
  pub files_by_post : Dict (List PendingFile)
  pub add_counter : ℕ
  pub cleanup_freq : ℕ

-- `NewPendingFileTracker`
unfoldable pub new_file_tracker : FileTracker
new_file_tracker = record { files_by_post = []; add_counter = 0; cleanup_freq = 50 }

abbrev pub half_hour : ℕ
half_hour = 1800000

-- `file.UploadedAt >= cutoffTime`
unfoldable pub is_fresh : ℕ → PendingFile → Bool
is_fresh now file = not (ltb file.uploaded_at (now - half_hour))

-- `m[k]` where a missing key reads as the nil slice
unfoldable pub files_of : Text → Dict (List PendingFile) → List PendingFile
unfolding Dict.get
files_of k m = elim (Dict.get k m) [ none ↦ [] | some files ↦ files ]

-- The loop of `cleanupOldFiles`: the map that stays, and `removedCount`. No post looks at another,
-- so the order of the loop does not matter.
unfoldable pub sweep : ℕ → Dict (List PendingFile) → Dict (List PendingFile) × ℕ
unfolding is_fresh
sweep now [] = ([], 0)
sweep now ((k, files) ∷ m) =
    let (rest, count) = sweep now m in
    let kept = keep (is_fresh now) files in
    (
      if eqb (length kept) 0 then rest else (k, kept) ∷ rest,
      tally (λ file. not (is_fresh now file)) files + count,
    )

-- `cleanupOldFiles`, and `CleanupOldFiles`, which takes the lock around it
unfoldable pub cleanup_old_files : ℕ → FileTracker → FileTracker × ℕ
unfolding sweep
cleanup_old_files now pft =
    let (m, count) = sweep now pft.files_by_post in
    (record pft { files_by_post = m; add_counter = 0 }, count)

-- `AddFile`
unfoldable pub add_file : ℕ → FileTracker → Text → PendingFile → FileTracker
unfolding cleanup_old_files files_of Dict.put
add_file now pft post_id file =
    let stamped = record file { uploaded_at = now } in
    let added = record pft {
      files_by_post =
          Dict.put post_id (files_of post_id pft.files_by_post ++ stamped ∷ []) pft.files_by_post;
      add_counter = pft.add_counter + 1;
    } in
    if eqb ((pft.add_counter + 1) % pft.cleanup_freq) 0
    then (cleanup_old_files now added).0
    else added

-- `GetFiles`: the files, and the tracker without them
unfoldable pub get_files : FileTracker → Text → FileTracker × List PendingFile
unfolding files_of Dict.remove
get_files pft post_id = (
  record pft { files_by_post = Dict.remove post_id pft.files_by_post },
  files_of post_id pft.files_by_post,
)

-- the loop of `RemoveFile`: the slice without the first file of that id, if there is one
unfoldable pub without_file : Text → List PendingFile → Option (List PendingFile)
without_file file_id [] = none
without_file file_id (file ∷ files) =
    let rest = without_file file_id files in
    if file.file_id == file_id
    then some files
    else elim rest [ none ↦ none | some left ↦ some (file ∷ left) ]

-- `RemoveFile`
unfoldable pub remove_file : FileTracker → Text → Text → FileTracker × Bool
unfolding files_of without_file Dict.put Dict.remove
remove_file pft post_id file_id = elim (without_file file_id (files_of post_id pft.files_by_post)) [
  | none ↦ (pft, false)
  | some left ↦
      let m = Dict.put post_id left pft.files_by_post in
      (
        record pft { files_by_post = if eqb (length left) 0 then Dict.remove post_id m else m },
        true,
      )
]

total : Dict (List PendingFile) → ℕ
total [] = 0
total ((k, files) ∷ m) = length files + total m

-- `Size`
unfoldable pub size : FileTracker → ℕ
unfolding total
size pft = total pft.files_by_post
