-- ===== src/ToMatrix/Sync.antt =====
-- server/sync_to_matrix.go: posts that are created and edited, with the files that wait for them and the
-- tracker of redundant edits.
pub mod Redundant
pub mod Remote
mod Tests
use mattermost_plugin_matrix.Prelude.{
  ℕ, ◌≡◌, Bool, true, false, ◌&&◌, ◌||◌, not, eqb, Option, none, some, List, [], ◌∷◌, ◌++◌, map,
  if◌then◌else◌, Text, ◌==◌, lit,
}
use mattermost_plugin_matrix.Prelude.Dict
use mattermost_plugin_matrix.Event.{Json, string, Fields, as_text, or_empty}
use mattermost_plugin_matrix.Store.{KvStore}
use mattermost_plugin_matrix.Tracker.Posts
use mattermost_plugin_matrix.Tracker.Posts.{PostTracker}
use mattermost_plugin_matrix.Tracker.Files.{FileTracker, get_files}
use mattermost_plugin_matrix.Markdown.{convert_mattermost_to_matrix}
use mattermost_plugin_matrix.Mapping.{MatrixClient}
use mattermost_plugin_matrix.Mattermost.{MattermostServer, User, Post}
use mattermost_plugin_matrix.ToMattermost.{Outcome, done, failed, extract_server_domain}
use mattermost_plugin_matrix.ToMatrix.{
  MatrixServer, MatrixBridge, MatrixSettings, event_id_of, RoomOf, unmapped, unresolved, room,
  room_of,
}
use mattermost_plugin_matrix.ToMatrix.Users.{
  with_store, create_or_get_ghost_user, get_matrix_user_id, ensure_ghost_user_in_room,
}
use mattermost_plugin_matrix.ToMatrix.Reactions.{is_remote}
use mattermost_plugin_matrix.ToMatrix.Posts.{delete_post_from_matrix}
use mattermost_plugin_matrix.ToMatrix.Mentions.{
  extract_mattermost_mentions, MessageContent, add_matrix_mentions_with_data,
}
use mattermost_plugin_matrix.ToMatrix.Attachments.{
  FileAttachment, attachment_of, is_matrix_content_identical,
}
use mattermost_plugin_matrix.ToMatrix.Sending.{send_message, edit_message_as_ghost}

-- What this direction reads of the Mattermost server besides the operations of Mattermost: the
-- information on a file, `UpdateAt` of a post, and the pages of the members of a channel.
pub record PostServer (S : Type 0) : Type 0 where
  pub get_file_info : Text → S → Option FileAttachment
  pub update_at : Text → S → ℕ
  pub get_channel_members : Text → ℕ → ℕ → S → Option (List Text)

-- `MattermostToMatrixBridge`
pub record Sync (S : Type 0) : Type 0 where
  pub matrix : MatrixBridge S
  pub file_tracker : FileTracker
  pub post_tracker : PostTracker

-- `propertyKey`
abbrev pub property_key : Option Text → Text
property_key hostname = lit "matrix_event_id_" ++ extract_server_domain hostname

module _ {S : Type 0} (kv : KvStore S) (mm : MattermostServer S) (posts : PostServer S)
    (mx : MatrixServer S) (rooms : MatrixClient) (settings : MatrixSettings) (remote_id : Text)
    (name_length : Text → ℕ) where
  -- the content of a message for a post, with its mentions
  unfoldable pub content_of : ℕ → Post → MatrixBridge S → MatrixBridge S × MessageContent
  content_of now post b =
      let (plain, html) = convert_mattermost_to_matrix post.message in
      let content : MessageContent = record {
        body = plain;
        formatted_body = if html == [] then none else some html;
        mentions = [];
      } in
      add_matrix_mentions_with_data kv mm mx settings name_length now
        (extract_mattermost_mentions post.message) content b

  -- `threadEventID`
  unfoldable pub thread_event_id : Post → S → Text
  thread_event_id post s = if post.root_id == [] then [] else elim (mm.get_post post.root_id s) [
    | none ↦ []
    | some root ↦ event_id_of settings.hostname root
  ]

  -- the end of `createPostInMatrix`: the identifier of the event, kept in the post, and the time of that
  -- update in the tracker
  unfoldable pub keep_event_id : ℕ → Post → Text → Sync S → Sync S
  keep_event_id now post event_id sync =
      if event_id == []
      then sync
      else elim (mm.update_post
          (record post {
            props = Dict.put (property_key settings.hostname) (string event_id) post.props;
          })
          sync.matrix.bridge.store) [
            | none ↦ sync
            | some updated ↦ record sync {
              matrix = with_store updated sync.matrix;
              post_tracker =
                  (Posts.put now sync.post_tracker post.id (posts.update_at post.id updated)).0;
            }
          ]

  -- the middle of it: the message for a post, by a user that is in the room
  unfoldable pub send_post : ℕ → Post → Text → Text → Sync S → Sync S × Outcome
  send_post now post room_id matrix_user_id sync =
      let (after, content) = content_of now post sync.matrix in
      let (tracker, files) = get_files sync.file_tracker post.id in
      let (sent, event_id) =
        send_message mx remote_id
          (record {
            room_id = room_id;
            ghost_user_id = matrix_user_id;
            message = content.body;
            html_message = or_empty content.formatted_body;
            thread_event_id = thread_event_id post after.bridge.store;
            post_id = post.id;
            files = map attachment_of files;
            mentions = content.mentions;
          })
          after.bridge.store in
      let next : Sync S = record sync { matrix = with_store sent after; file_tracker = tracker } in
      elim event_id [ none ↦ (next, failed) | some id ↦ (keep_event_id now post id next, done) ]

  -- A user that is found and put into a room, for what a handler then does as that user.
  unfoldable pub as_member :
      ℕ
      → Text
      → Text
      → (Text → Sync S → Sync S × Outcome)
      → MatrixBridge S × Option Text
      → Sync S
      → Sync S × Outcome
  as_member now room_id user_id act (got, id) sync = elim id [
    | none ↦ (record sync { matrix = got }, failed)
    | some matrix_user_id ↦
        let (joined, outcome) =
          ensure_ghost_user_in_room kv mm mx settings now matrix_user_id room_id user_id got in
        elim outcome [
          | failed ↦ (record sync { matrix = joined }, failed)
          | done ↦ act matrix_user_id (record sync { matrix = joined })
        ]
  ]

  -- `createPostInMatrix`
  unfoldable pub create_post_in_matrix : ℕ → Post → Text → User → Sync S → Sync S × Outcome
  create_post_in_matrix now post room_id user sync =
      if is_remote user
      then (sync, done)
      else as_member now room_id user.id (send_post now post room_id)
          (get_matrix_user_id kv mm mx settings now user.id sync.matrix) sync

  -- the files of a post that was sent before, without the addresses of their contents
  unfoldable pub files_of_post : List Text → S → List FileAttachment
  files_of_post [] s = []
  files_of_post (id ∷ ids) s =
      let rest = files_of_post ids s in
      elim (posts.get_file_info id s) [
        | none ↦ rest
        | some info ↦ (record info { mxc_uri = [] }) ∷ rest
      ]

  -- `currentFiles`
  unfoldable pub files_to_compare : Post → List FileAttachment → S → List FileAttachment
  files_to_compare post [] s = files_of_post post.file_ids s
  files_to_compare post (file ∷ files) s = file ∷ files

  -- If the current event is there and has the content already.
  unfoldable pub is_unchanged : Text → Text → MessageContent → List FileAttachment → S → Bool
  is_unchanged room_id event_id content files s = elim (mx.get_event room_id event_id s) [
    | none ↦ false
    | some event ↦
        is_matrix_content_identical mx event content.body (or_empty content.formatted_body) room_id
          event_id files s
  ]

  -- the end of `updatePostInMatrix`: the edit, by a user that is in the room
  unfoldable pub send_edit : ℕ → Post → Text → Text → Text → Sync S → Sync S × Outcome
  send_edit now post room_id event_id ghost sync =
      let (after, content) = content_of now post sync.matrix in
      let (tracker, pending) = get_files sync.file_tracker post.id in
      let s = after.bridge.store in
      let files = files_to_compare post (map attachment_of pending) s in
      let next : Sync S = record sync { matrix = after; file_tracker = tracker } in
      if is_unchanged room_id event_id content files s
      then (next, done)
      else elim (edit_message_as_ghost mx remote_id room_id event_id content.body
          (or_empty content.formatted_body) ghost s) [
            | none ↦ (next, failed)
            | some (sent, id) ↦ (record next { matrix = with_store sent after }, done)
          ]

  -- `updatePostInMatrix`
  unfoldable pub update_post_in_matrix : ℕ → Post → Text → Text → User → Sync S → Sync S × Outcome
  update_post_in_matrix now post room_id event_id user sync =
      if is_remote user
      then (sync, done)
      else as_member now room_id user.id (send_edit now post room_id event_id)
          (create_or_get_ghost_user kv mm mx settings now user.id sync.matrix) sync

  -- the edit of a post that has an event, with the tracker of redundant edits
  unfoldable pub sync_edit : ℕ → Post → ℕ → Text → Text → User → Sync S → Sync S × Outcome
  sync_edit now post update_at room_id event_id user sync =
      let untracked : Sync S = record sync {
        post_tracker = Posts.delete sync.post_tracker post.id;
      } in
      let as_edit = update_post_in_matrix now post room_id event_id user sync in
      let as_tracked = update_post_in_matrix now post room_id event_id user untracked in
      elim (Posts.get sync.post_tracker post.id) [
        | none ↦ as_edit
        | some stored ↦ if eqb update_at stored then (untracked, done) else as_tracked
      ]

  -- `syncPostToMatrixWithResolvedRoom`; `deleted` tells if the post was, and `update_at` is its time
  unfoldable pub sync_post_to_matrix_with_resolved_room :
      Bool → ℕ → ℕ → Post → Text → Text → Sync S → Sync S × Outcome
  sync_post_to_matrix_with_resolved_room deleted update_at now post channel room_id sync =
      if deleted
      then (let (after, outcome) =
            delete_post_from_matrix kv mm mx rooms settings now post channel sync.matrix in
          (record sync { matrix = after }, outcome))
      else elim (mm.get_user post.user_id sync.matrix.bridge.store) [
        | none ↦ (sync, failed)
        | some user ↦
            let event_id = event_id_of settings.hostname post in
            if not (event_id == [])
            then sync_edit now post update_at room_id event_id user sync
            else create_post_in_matrix now post room_id user sync
      ]
