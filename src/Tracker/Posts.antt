-- ===== src/Tracker/Posts.antt =====
-- `PostTracker` of server/post_tracker.go. `now` is `time.Now().UnixMilli()` in the call, and
-- timestamps are milliseconds since the epoch; a cutoff before the epoch deletes nothing.
pub mod Bounds
pub mod Reads
use mattermost_plugin_matrix.Prelude.{
  ℕ, ◌+◌, ◌-◌, ◌%◌, Bool, true, false, not, ◌&&◌, Option, [], length, ltb, eqb, if◌then◌else◌, Text,
}
use mattermost_plugin_matrix.Prelude.Dict
use mattermost_plugin_matrix.Prelude.Dict.{Dict}
use mattermost_plugin_matrix.Prelude.Int.{ℤ, reaches}

pub record PostTracker : Type 0 where
  pub entries : Dict ℕ
  pub put_counter : ℕ
  pub cleanup_freq : ℕ
  pub max_entries : ℤ

-- `DefaultPostTrackerMaxEntries`
abbrev pub default_max_entries : ℤ
default_max_entries = ℤ.pos 10000

-- `NewPostTracker`
unfoldable pub new_post_tracker : ℤ → PostTracker
new_post_tracker max_entries = record {
  entries = [];
  put_counter = 0;
  cleanup_freq = 100;
  max_entries = max_entries;
}

abbrev pub hour : ℕ
hour = 3600000

-- An entry that `cleanupOldEntries` keeps: not older than one hour.
unfoldable pub is_recent : ℕ → ℕ → Bool
is_recent now update_at = not (ltb update_at (now - hour))

-- `cleanupOldEntries`
unfoldable pub cleanup_old_entries : ℕ → PostTracker → PostTracker
unfolding is_recent Dict.retain
cleanup_old_entries now pt = record pt {
  entries = Dict.retain (is_recent now) pt.entries;
  put_counter = 0;
}

-- `len(pt.entries) >= pt.maxEntries`
unfoldable pub is_full : PostTracker → Bool
is_full pt = reaches (length pt.entries) pt.max_entries

-- the end of `Put`: the entry, the counter and the periodic cleanup
unfoldable pub add_entry : ℕ → PostTracker → Text → ℕ → PostTracker
unfolding cleanup_old_entries Dict.put
add_entry now pt post_id update_at =
    let added = record pt {
      entries = Dict.put post_id update_at pt.entries;
      put_counter = pt.put_counter + 1;
    } in
    if eqb ((pt.put_counter + 1) % pt.cleanup_freq) 0 then cleanup_old_entries now added else added

-- `Put`: the state after the call, and whether it stored the entry (false is the error)
unfoldable pub put : ℕ → PostTracker → Text → ℕ → PostTracker × Bool
unfolding is_full add_entry
put now pt post_id update_at =
    let room = if is_full pt then cleanup_old_entries now pt else pt in
    if is_full pt && is_full room
    then (room, false)
    else (add_entry now room post_id update_at, true)

-- `Get`
unfoldable pub get : PostTracker → Text → Option ℕ
get pt post_id = Dict.get post_id pt.entries

-- `Delete`
unfoldable pub delete : PostTracker → Text → PostTracker
unfolding Dict.remove
delete pt post_id = record pt { entries = Dict.remove post_id pt.entries }

-- `Size`
unfoldable pub size : PostTracker → ℕ
size pt = length pt.entries
