-- ===== src/Tracker/Tests.antt =====
-- Runs of server/post_tracker.go on small inputs, and its theorems at concrete values.
use mattermost_plugin_matrix.Prelude.{◌≡◌, ◌≢◌, refl, false, some, arith, ◌==◌, lit}
use mattermost_plugin_matrix.Prelude.Dict
use mattermost_plugin_matrix.Prelude.Int.{ℤ}
use mattermost_plugin_matrix.Tracker.Posts
use mattermost_plugin_matrix.Tracker.Posts.{
  PostTracker, new_post_tracker, is_recent, is_full, cleanup_old_entries, put,
}
use mattermost_plugin_matrix.Tracker.Posts.Bounds
use mattermost_plugin_matrix.Tracker.Posts.Bounds.{put-IsValid, new_post_tracker-IsValid}
use mattermost_plugin_matrix.Tracker.Posts.Reads.{get-put_self_lem}
use mattermost_plugin_matrix.Tracker.Files
use mattermost_plugin_matrix.Tracker.Files.{
  PendingFile, FileTracker, new_file_tracker, is_fresh, files_of, cleanup_old_files, add_file,
  get_files, remove_file,
}
use mattermost_plugin_matrix.Tracker.Files.Keeps
use mattermost_plugin_matrix.Tracker.Files.Keeps.{add_file-IsValid, cleanup_old_files_lem}

program : Unit {0}
unfolding put Posts.get Posts.delete new_post_tracker Dict.get ◌==◌ cleanup_old_files add_file
    get_files remove_file new_file_tracker Files.size
program = tt

abbrev one_slot : PostTracker
one_slot = new_post_tracker (ℤ.pos 1)

abbrev holding : PostTracker
holding = (put 5000000 one_slot (lit "p") 4000000).0

holding-IsValid : Bounds.IsValid holding
holding-IsValid =
    put-IsValid 5000000 one_slot (lit "p") 4000000 (new_post_tracker-IsValid (ℤ.pos 1))

-- A full tracker refuses even the update of a post that it holds.
refuses_update : (put 5000000 holding (lit "p") 4500000).1 ≡ false
unfolding program
refuses_update = refl

get-put_self_lem_example :
    Posts.get (put 9000000 holding (lit "q") 9000000).0 (lit "q") ≡ some 9000000
unfolding program
get-put_self_lem_example =
    get-put_self_lem 9000000 holding (lit "q") 9000000 holding-IsValid refl refl

p_not_q : lit "q" ≢ lit "p"
p_not_q h = ground (arith, h)

abbrev picture : PendingFile
picture = record {
  file_id = lit "f";
  filename = lit "a.png";
  mxc_uri = lit "mxc://s/1";
  mime_type = lit "image/png";
  size = 3;
  uploaded_at = 0;
}

new_file_tracker-IsValid : Keeps.IsValid new_file_tracker
unfolding new_file_tracker
new_file_tracker-IsValid = record { distinct = tt; filled = tt }

abbrev pending : FileTracker
pending = add_file 2000000 new_file_tracker (lit "p") picture

pending-IsValid : Keeps.IsValid pending
pending-IsValid =
    add_file-IsValid 2000000 new_file_tracker (lit "p") picture new_file_tracker-IsValid

add_file-IsValid_example : Keeps.IsValid (add_file 3000000 pending (lit "q") picture)
add_file-IsValid_example = add_file-IsValid 3000000 pending (lit "q") picture pending-IsValid

swept : (cleanup_old_files 4000000 pending).1 ≡ 1
unfolding program
swept = refl
