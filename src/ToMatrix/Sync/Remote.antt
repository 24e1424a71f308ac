-- ===== src/ToMatrix/Sync/Remote.antt =====
-- Posts of users that came from Matrix are not sent back to it (server/sync_to_matrix.go).
use mattermost_plugin_matrix.Prelude.{
  ℕ, ◌≡◌, refl, true, false, eqb, some, Option-cases, Bool-cases, inl, inr, [], Text, ◌==◌,
}
use mattermost_plugin_matrix.Store.{KvStore}
use mattermost_plugin_matrix.Tracker.Posts
use mattermost_plugin_matrix.Mapping.{MatrixClient}
use mattermost_plugin_matrix.Mattermost.{MattermostServer, User, Post}
use mattermost_plugin_matrix.ToMattermost.{Outcome, done}
use mattermost_plugin_matrix.ToMatrix.{MatrixServer, MatrixSettings, event_id_of}
use mattermost_plugin_matrix.ToMatrix.Reactions.{is_remote}
use mattermost_plugin_matrix.ToMatrix.Sync.{
  PostServer, Sync, create_post_in_matrix, update_post_in_matrix, sync_edit,
  sync_post_to_matrix_with_resolved_room,
}

module _ {S : Type 0} (kv : KvStore S) (mm : MattermostServer S) (posts : PostServer S)
    (mx : MatrixServer S) (rooms : MatrixClient) (settings : MatrixSettings) (remote_id : Text)
    (name_length : Text → ℕ) where
  -- A step ended without an error, and no server and no cache was changed by it.
  abbrev Quiet : Sync S → Sync S × Outcome → Type 0
  Quiet sync result = (result.1 ≡ done) × (result.0.matrix ≡ sync.matrix)

  sync_edit-Quiet :
      (now update_at : ℕ) (post : Post) (room_id event_id : Text) (user : User) (sync : Sync S)
      → is_remote user ≡ true
      → Quiet sync (
          sync_edit kv mm posts mx rooms settings remote_id name_length now post update_at room_id
            event_id user sync)
  unfolding sync_edit update_post_in_matrix
  sync_edit-Quiet now update_at post room_id event_id user sync remote =
      elim (Option-cases (Posts.get sync.post_tracker post.id)) [
        | inl e ↦ rw (e, sync_edit) (rw remote (refl, refl))
        | inr (stored, e) ↦
            rw (e, sync_edit)
              (elim (Bool-cases (eqb update_at stored)) [
                | inl f ↦ rw f (refl, refl)
                | inr f ↦ rw f (rw remote (refl, refl))
              ])
      ]

  -- A post that was not deleted, new or edited, of a user that is remote is done with no change of any
  -- server and of any cache of the bridge.
  pub sync_post_to_matrix_with_resolved_room_remote :
      (update_at now : ℕ) (post : Post) (channel room_id : Text) (user : User) (sync : Sync S)
      → mm.get_user post.user_id sync.matrix.bridge.store ≡ some user
      → is_remote user ≡ true
      → ((sync_post_to_matrix_with_resolved_room kv mm posts mx rooms settings remote_id name_length
            false update_at now post channel room_id sync).1
          ≡ done)
        × ((sync_post_to_matrix_with_resolved_room kv mm posts mx rooms settings remote_id
              name_length false update_at now post channel room_id sync).0.matrix
            ≡ sync.matrix)
  unfolding sync_post_to_matrix_with_resolved_room create_post_in_matrix
  sync_post_to_matrix_with_resolved_room_remote update_at now post channel room_id user sync got
        remote =
      let event_id = event_id_of settings.hostname post in
      rw (got, sync_post_to_matrix_with_resolved_room)
        (elim (Bool-cases (event_id == [])) [
          | inl e ↦ rw e (rw remote (refl, refl))
          | inr e ↦ rw e (sync_edit-Quiet now update_at post room_id event_id user sync remote)
        ])
