-- ===== src/Tracker/Posts/Reads.antt =====
-- What `PostTracker` (server/post_tracker.go) answers after a call.
use mattermost_plugin_matrix.Prelude.{ℕ, ◌≡◌, ◌≢◌, ◌↔◌, true, false, some, arith, Text, eq_iff}
use mattermost_plugin_matrix.Prelude.Dict
use mattermost_plugin_matrix.Prelude.Dict.{
  Dict, IsDict, get-put, get-put_self, get-retain, filtered, put-IsDict, get-remove,
}
use mattermost_plugin_matrix.Tracker.Posts.{
  PostTracker, cleanup_old_entries, is_full, is_recent, add_entry, put, get,
}
use mattermost_plugin_matrix.Tracker.Posts.Bounds.{IsValid, cleanup-IsValid}

-- A cleanup forgets exactly the posts older than an hour.
pub get-cleanup :
    (now : ℕ) (pt : PostTracker) (k : Text)
    → IsValid pt
    → get (cleanup_old_entries now pt) k ≡ filtered (is_recent now) (get pt k)
unfolding get cleanup_old_entries
get-cleanup now pt k v = get-retain (is_recent now) k pt.entries v.distinct

add_entry-get :
    (now : ℕ) (pt : PostTracker) (k : Text) (t : ℕ)
    → IsDict pt.entries
    → is_recent now t ≡ true
    → get (add_entry now pt k t) k ≡ some t
unfolding add_entry get cleanup_old_entries
add_entry-get now pt k t d fresh = ground (
  arith,
  get-put_self k t pt.entries,
  get-retain (is_recent now) k (Dict.put k t pt.entries) (put-IsDict k t pt.entries d),
)

-- A `Put` of a recent timestamp that returns no error is read back.
pub get-put_self_lem :
    (now : ℕ) (pt : PostTracker) (k : Text) (t : ℕ)
    → IsValid pt
    → is_recent now t ≡ true
    → (put now pt k t).1 ≡ true
    → get (put now pt k t).0 k ≡ some t
unfolding put
get-put_self_lem now pt k t v fresh done = ground (
  arith,
  add_entry-get now pt k t v.distinct fresh,
  add_entry-get now (cleanup_old_entries now pt) k t (cleanup-IsValid now pt v).distinct fresh,
)

add_entry-get_ne :
    (now : ℕ) (pt : PostTracker) (k j : Text) (t u : ℕ)
    → IsDict pt.entries
    → k ≢ j
    → is_recent now u ≡ true
    → get pt j ≡ some u
    → get (add_entry now pt k t) j ≡ some u
unfolding add_entry get cleanup_old_entries
add_entry-get_ne now pt k j t u d other fresh found = ground (
  arith,
  get-put k j t pt.entries,
  eq_iff k j,
  get-retain (is_recent now) j (Dict.put k t pt.entries) (put-IsDict k t pt.entries d),
)

-- No `Put`, whether it succeeds or fails, loses or changes another post whose timestamp is at
-- most an hour old.
pub get-put_ne :
    (now : ℕ) (pt : PostTracker) (k j : Text) (t u : ℕ)
    → IsValid pt
    → k ≢ j
    → is_recent now u ≡ true
    → get pt j ≡ some u
    → get (put now pt k t).0 j ≡ some u
unfolding put
get-put_ne now pt k j t u v other fresh found =
    let kept : get (cleanup_old_entries now pt) j ≡ some u =
      ground (arith, get-cleanup now pt j v) in
    ground (
      arith,
      kept,
      add_entry-get_ne now pt k j t u v.distinct other fresh found,
      add_entry-get_ne now (cleanup_old_entries now pt) k j t u (cleanup-IsValid now pt v).distinct
          other fresh kept,
    )

-- `Put` fails exactly when the tracker is full and no entry is older than an hour, whether the
-- post is in it or not; it then changes only the counter.
pub put_fails :
    (now : ℕ) (pt : PostTracker) (k : Text) (t : ℕ)
    → ((put now pt k t).1 ≡ false)
      ↔ ((is_full pt ≡ true) × (is_full (cleanup_old_entries now pt) ≡ true))
unfolding put
put_fails now pt k t = ground arith
