-- ===== src/ToMatrix/Sync/Redundant.antt =====
-- The edit that the synchronisation makes itself, to keep the event in the post
-- (server/sync_to_matrix.go), does not reach Matrix.
use mattermost_plugin_matrix.Prelude.{
  ℕ, ◌≡◌, refl, ◌∙◌, ap, true, false, some, [], Text, ◌==◌, arith,
}
use mattermost_plugin_matrix.Prelude.Dict
use mattermost_plugin_matrix.Event.{string}
use mattermost_plugin_matrix.Store.{KvStore}
use mattermost_plugin_matrix.Tracker.Posts
use mattermost_plugin_matrix.Tracker.Posts.{is_recent}
use mattermost_plugin_matrix.Tracker.Posts.Bounds.{IsValid}
use mattermost_plugin_matrix.Tracker.Posts.Reads.{get-put_self_lem}
use mattermost_plugin_matrix.Mapping.{MatrixClient}
use mattermost_plugin_matrix.Mattermost.{MattermostServer, User, Post}
use mattermost_plugin_matrix.ToMattermost.{done}
use mattermost_plugin_matrix.ToMatrix.{MatrixServer, MatrixSettings, event_id_of}
use mattermost_plugin_matrix.ToMatrix.Users.{with_store}
use mattermost_plugin_matrix.ToMatrix.Sync.{
  PostServer, Sync, property_key, keep_event_id, sync_edit, sync_post_to_matrix_with_resolved_room,
}

module _ {S : Type 0} (kv : KvStore S) (mm : MattermostServer S) (posts : PostServer S)
    (mx : MatrixServer S) (rooms : MatrixClient) (settings : MatrixSettings) (remote_id : Text)
    (name_length : Text → ℕ) where
  -- A post with its event among the properties.
  abbrev pub with_event : Post → Text → Post
  with_event post event_id = record post {
    props = Dict.put (property_key settings.hostname) (string event_id) post.props;
  }

  sync_edit_tracked :
      (now update_at : ℕ) (post : Post) (room_id event_id : Text) (user : User) (sync : Sync S)
      → Posts.get sync.post_tracker post.id ≡ some update_at
      → sync_edit kv mm posts mx rooms settings remote_id name_length now post update_at room_id
          event_id user sync
        ≡ (record sync { post_tracker = Posts.delete sync.post_tracker post.id }, done)
  unfolding sync_edit
  sync_edit_tracked now update_at post room_id event_id user sync tracked =
      rw (tracked, sync_edit) (ground arith)

  -- The state with the event kept in the post.
  abbrev kept_state : ℕ → Post → S → Sync S → Sync S
  kept_state now post updated sync = record sync {
    matrix = with_store updated sync.matrix;
    post_tracker = (Posts.put now sync.post_tracker post.id (posts.update_at post.id updated)).0;
  }

  keep_event_id_lem :
      (now : ℕ) (post : Post) (event_id : Text) (updated : S) (sync : Sync S)
      → (event_id == []) ≡ false
      → mm.update_post (with_event post event_id) sync.matrix.bridge.store ≡ some updated
      → keep_event_id kv mm posts mx rooms settings remote_id name_length now post event_id sync
        ≡ kept_state now post updated sync
  unfolding keep_event_id
  keep_event_id_lem now post event_id updated sync named kept =
      rw named (rw (kept, keep_event_id) refl)

  sync_post_tracked :
      (update_at now : ℕ) (post : Post) (channel room_id : Text) (user : User) (sync : Sync S)
      → Posts.get sync.post_tracker post.id ≡ some update_at
      → mm.get_user post.user_id sync.matrix.bridge.store ≡ some user
      → (event_id_of settings.hostname post == []) ≡ false
      → sync_post_to_matrix_with_resolved_room kv mm posts mx rooms settings remote_id name_length
          false update_at now post channel room_id sync
        ≡ (record sync { post_tracker = Posts.delete sync.post_tracker post.id }, done)
  unfolding sync_post_to_matrix_with_resolved_room
  sync_post_tracked update_at now post channel room_id user sync tracked got has_event =
      rw (got, sync_post_to_matrix_with_resolved_room)
        (rw has_event (
          sync_edit_tracked now update_at post room_id (event_id_of settings.hostname post) user
            sync tracked))

  -- If the event of a post that was sent is kept in the post, the tracker stores the time of that
  -- update, and the server gives the user of the post, then the edit that the update sets off, with that
  -- time, is done without a change of any server, and the tracker forgets the post.
  pub sync_post-keep_event_id :
      (now later : ℕ) (post : Post) (channel room_id event_id : Text) (user : User) (updated : S)
      (sync : Sync S)
      → IsValid sync.post_tracker
      → (event_id == []) ≡ false
      → mm.update_post (with_event post event_id) sync.matrix.bridge.store ≡ some updated
      → is_recent now (posts.update_at post.id updated) ≡ true
      → (Posts.put now sync.post_tracker post.id (posts.update_at post.id updated)).1 ≡ true
      → mm.get_user post.user_id updated ≡ some user
      → (event_id_of settings.hostname (with_event post event_id) == []) ≡ false
      → sync_post_to_matrix_with_resolved_room kv mm posts mx rooms settings remote_id name_length
          false
          (posts.update_at post.id updated)
          later
          (with_event post event_id)
          channel
          room_id
          (keep_event_id kv mm posts mx rooms settings remote_id name_length now post event_id sync)
        ≡ (
          record sync {
            matrix = with_store updated sync.matrix;
            post_tracker =
                Posts.delete
                  (Posts.put now sync.post_tracker post.id (posts.update_at post.id updated)).0
                  post.id;
          },
          done,
        )
  sync_post-keep_event_id now later post channel room_id event_id user updated sync valid named kept
        recent stored got has_event =
      let update_at = posts.update_at post.id updated in
      let tracked = get-put_self_lem now sync.post_tracker post.id update_at valid recent stored in
      ap
        (sync_post_to_matrix_with_resolved_room kv mm posts mx rooms settings remote_id name_length
          false update_at later (with_event post event_id) channel room_id)
        (keep_event_id_lem now post event_id updated sync named kept)
      ∙ sync_post_tracked update_at later (with_event post event_id) channel room_id user
          (kept_state now post updated sync) tracked got has_event
