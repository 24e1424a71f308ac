-- ===== src/ToMatrix/Posts.antt =====
-- server/sync_to_matrix.go: the deletion of posts, with the files that were sent as replies to them.
pub mod Mirrored
use mattermost_plugin_matrix.Prelude.{
  ℕ, ◌≡◌, Bool, true, false, ◌&&◌, ◌||◌, not, Option, none, some, List, [], ◌∷◌, ◌++◌,
  if◌then◌else◌, Text, ◌==◌, lit,
}
use mattermost_plugin_matrix.Event.{Fields, text_at, object_at, or_empty}
use mattermost_plugin_matrix.Store.{KvStore, or_same}
use mattermost_plugin_matrix.Mapping.{MatrixClient}
use mattermost_plugin_matrix.Mattermost.{MattermostServer, Post}
use mattermost_plugin_matrix.ToMattermost.{Outcome, done, failed}
use mattermost_plugin_matrix.ToMattermost.Messages.{is_file}
use mattermost_plugin_matrix.ToMatrix.{
  MatrixServer, MatrixBridge, MatrixSettings, event_id_of, RoomOf, unmapped, unresolved, room,
  room_of,
}
use mattermost_plugin_matrix.ToMatrix.Users.{with_store, get_ghost_user}

-- If a related event is a file that a ghost user sent.
unfoldable pub is_file_of : Text → Fields → Bool
is_file_of ghost event =
    or_empty (text_at (lit "type") event) == lit "m.room.message"
    && elim (text_at (lit "sender") event) [ none ↦ false | some sender ↦ sender == ghost ]
    && elim (object_at (lit "content") event) [ none ↦ false | some content ↦ is_file content ]

-- the loop of `getFileEventIDsFromMetadata`
unfoldable pub file_event_ids : Text → List Fields → List Text
file_event_ids ghost [] = []
file_event_ids ghost (event ∷ events) =
    let rest = file_event_ids ghost events in
    if is_file_of ghost event
    then elim (text_at (lit "event_id") event) [ none ↦ rest | some id ↦ id ∷ rest ]
    else rest

module _ {S : Type 0} (kv : KvStore S) (mm : MattermostServer S) (mx : MatrixServer S)
    (rooms : MatrixClient) (settings : MatrixSettings) where
  -- the loop of `deleteAllFileReplies`, whose errors are only logged
  unfoldable pub redact_all : Text → Text → List Text → S → S
  redact_all room_id ghost [] s = s
  redact_all room_id ghost (id ∷ ids) s =
      redact_all room_id ghost ids (or_same s (mx.redact room_id id ghost s))

  -- `deleteAllFileReplies`; an error is only logged
  unfoldable pub delete_all_file_replies : Text → Text → Text → S → S
  delete_all_file_replies room_id event_id ghost s =
      elim (mx.get_relations room_id event_id ghost s) [
        | none ↦ s
        | some relations ↦ redact_all room_id ghost (file_event_ids ghost relations) s
      ]

  -- the end of `deletePostFromMatrix`: the files, and then the message
  unfoldable pub redact_post : Text → Text → Text → MatrixBridge S → MatrixBridge S × Outcome
  redact_post room_id event_id ghost b =
      let cleared = delete_all_file_replies room_id event_id ghost b.bridge.store in
      elim (mx.redact room_id event_id ghost cleared) [
        | none ↦ (with_store cleared b, failed)
        | some redacted ↦ (with_store redacted b, done)
      ]

  -- `deletePostFromMatrix` after the room of the channel is known
  unfoldable pub delete_in_room : ℕ → Post → MatrixBridge S → RoomOf → MatrixBridge S × Outcome
  delete_in_room now post b unmapped = (b, done)
  delete_in_room now post b unresolved = (b, failed)
  delete_in_room now post b (room room_id) =
      let event_id = event_id_of settings.hostname post in
      if event_id == [] then (b, done) else elim (mm.get_user post.user_id b.bridge.store) [
        | none ↦ (b, failed)
        | some user ↦
            let (looked, ghost) = get_ghost_user kv mm mx settings now user.id b in
            elim ghost [ none ↦ (looked, done) | some id ↦ redact_post room_id event_id id looked ]
      ]

  -- `deletePostFromMatrix`
  unfoldable pub delete_post_from_matrix :
      ℕ → Post → Text → MatrixBridge S → MatrixBridge S × Outcome
  delete_post_from_matrix now post channel b =
      let (found, where_) = room_of kv rooms now channel b in delete_in_room now post found where_
