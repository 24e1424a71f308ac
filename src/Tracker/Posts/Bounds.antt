-- ===== src/Tracker/Posts/Bounds.antt =====
-- The bound of `PostTracker` (server/post_tracker.go), kept by every operation.
use mattermost_plugin_matrix.Prelude.{
  ℕ, ◌+◌, ◌%◌, ◌≤◌, ◌<◌, eqb, ◌≡◌, false, ◌&&◌, length, arith, Text, Bool-cases, inl, inr,
}
use mattermost_plugin_matrix.Prelude.Dict
use mattermost_plugin_matrix.Prelude.Dict.{
  Dict, IsDict, put-IsDict, remove-IsDict, retain-IsDict, length-put-le, length-remove-le,
  length-retain-le,
}
use mattermost_plugin_matrix.Prelude.Int.{ℤ, reaches, room}
use mattermost_plugin_matrix.Tracker.Posts.{
  PostTracker, new_post_tracker, cleanup_old_entries, is_full, is_recent, add_entry, put, delete,
}

pub record IsValid (pt : PostTracker) : Type 0 where
  pub distinct : IsDict pt.entries
  pub bounded : length pt.entries ≤ room pt.max_entries

pub new_post_tracker-IsValid : (max_entries : ℤ) → IsValid (new_post_tracker max_entries)
unfolding new_post_tracker
new_post_tracker-IsValid max_entries = record { distinct = tt; bounded = omega arith }

-- A cleanup resets the counter, keeps the limits, and leaves no more entries than there were.
pub cleanup-IsValid :
    (now : ℕ) (pt : PostTracker) → IsValid pt → IsValid (cleanup_old_entries now pt)
unfolding cleanup_old_entries
cleanup-IsValid now pt v = record {
  distinct = retain-IsDict (is_recent now) pt.entries v.distinct;
  bounded = omega (arith, v.bounded, length-retain-le (is_recent now) pt.entries);
}

not_full : (z : ℤ) (n : ℕ) → reaches n z ≡ false → n < room z
not_full (ℤ.pos m) n h = ground arith
not_full (ℤ.negsuc m) n h = absurd (ground arith)

with_entry : PostTracker → Text → ℕ → PostTracker
with_entry pt k t = record pt {
  entries = Dict.put k t pt.entries;
  put_counter = pt.put_counter + 1;
}

with_entry-IsValid :
    (pt : PostTracker) (k : Text) (t : ℕ)
    → IsValid pt
    → is_full pt ≡ false
    → IsValid (with_entry pt k t)
unfolding with_entry is_full
with_entry-IsValid pt k t v h = record {
  distinct = put-IsDict k t pt.entries v.distinct;
  bounded =
      omega (arith, length-put-le k t pt.entries, not_full pt.max_entries (length pt.entries) h);
}

add_entry-IsValid :
    (now : ℕ) (pt : PostTracker) (k : Text) (t : ℕ)
    → IsValid pt
    → is_full pt ≡ false
    → IsValid (add_entry now pt k t)
unfolding add_entry
add_entry-IsValid now pt k t v h =
    let w = with_entry-IsValid pt k t v h in
    elim (Bool-cases (eqb ((pt.put_counter + 1) % pt.cleanup_freq) 0)) [
      | inl due ↦ rw due (unfold with_entry in cleanup-IsValid now (with_entry pt k t) w)
      | inr early ↦ rw early (unfold with_entry in w)
    ]

-- `Put` keeps a valid tracker valid: no more entries than the maximum, and no post twice.
pub put-IsValid :
    (now : ℕ) (pt : PostTracker) (k : Text) (t : ℕ) → IsValid pt → IsValid (put now pt k t).0
unfolding put
put-IsValid now pt k t v = elim (Bool-cases (is_full pt)) [
  | inr free ↦ rw (free, ◌&&◌) (add_entry-IsValid now pt k t v free)
  | inl full ↦
      let w = cleanup-IsValid now pt v in
      elim (Bool-cases (is_full (cleanup_old_entries now pt))) [
        | inl still ↦ rw (full, still) w
        | inr free ↦ rw (full, free) (add_entry-IsValid now (cleanup_old_entries now pt) k t w free)
      ]
]

pub delete-IsValid : (pt : PostTracker) (k : Text) → IsValid pt → IsValid (delete pt k)
unfolding delete
delete-IsValid pt k v = record {
  distinct = remove-IsDict k pt.entries v.distinct;
  bounded = omega (arith, v.bounded, length-remove-le k pt.entries);
}
