-- ===== src/ToMattermost/Messages.antt =====
-- server/sync_to_mattermost.go: messages, their edits, and files. The package that converts HTML is a
-- parameter. A handler gives the state of the bridge and what it returns.
pub mod Roots
mod Tests
pub mod Errors
pub mod Mapped
pub mod Redacted
use mattermost_plugin_matrix.Prelude.{
  ℕ, ◌≡◌, Bool, true, false, ◌&&◌, ◌||◌, not, Option, none, some, List, [], ◌∷◌, ◌++◌,
  if◌then◌else◌, Text, ◌==◌, lit,
}
use mattermost_plugin_matrix.Prelude.Dict.{Dict}
use mattermost_plugin_matrix.Event.{
  MatrixEvent, Json, string, boolean, Fields, text_at, object_at, or_empty,
}
use mattermost_plugin_matrix.Store.{KvStore}
use mattermost_plugin_matrix.Mapping.{Bridge}
use mattermost_plugin_matrix.Mattermost.{MattermostServer, Post}
use mattermost_plugin_matrix.Content.{is_edit, extract_matrix_message_content}
use mattermost_plugin_matrix.ToMattermost.{
  SyncClient, Settings, Outcome, done, failed, extract_server_domain, extract_mattermost_metadata,
  get_post_id_from_matrix_event, get_post_id_from_related_matrix_event,
  get_thread_root_from_post_id, store_matrix_event_post_mapping,
}
use mattermost_plugin_matrix.ToMattermost.Users.{get_or_create_mattermost_user}

-- `convertMatrixToMattermost`
unfoldable pub convert_matrix_to_mattermost : Text → Text
convert_matrix_to_mattermost content = content

-- the event that a relation says it replies to: `m.in_reply_to`
unfoldable pub replied_to : Fields → Option Text
replied_to relates_to = elim (object_at (lit "m.in_reply_to") relates_to) [
  | none ↦ none
  | some in_reply_to ↦ text_at (lit "event_id") in_reply_to
]

-- the event at the root of the thread of a relation: `m.thread`
unfoldable pub threaded_under : Fields → Option Text
threaded_under relates_to =
    if or_empty (text_at (lit "rel_type") relates_to) == lit "m.thread"
    then text_at (lit "event_id") relates_to
    else none

-- the types of the messages that are files
unfoldable pub is_file : Fields → Bool
is_file content =
    let kind = or_empty (text_at (lit "msgtype") content) in
    kind == lit "m.image" || kind == lit "m.file" || kind == lit "m.video" || kind == lit "m.audio"

-- the properties that a post gets
unfoldable pub props_of : Settings → MatrixEvent → Dict Json
props_of settings event =
    (lit "matrix_event_id_" ++ extract_server_domain settings.hostname, string event.event_id)
    ∷ (lit "from_matrix", boolean true)
    ∷ []

-- the post of a message
unfoldable pub post_of : Settings → MatrixEvent → Text → Text → Text → Text → Post
post_of settings event channel user message root = record {
  id = [];
  user_id = user;
  channel_id = channel;
  message = message;
  create_at = event.timestamp;
  edit_at = 0;
  root_id = root;
  remote_id = settings.remote_id;
  file_ids = [];
  props = props_of settings event;
}

module _ {S : Type 0} (kv : KvStore S) (mm : MattermostServer S) (client : SyncClient)
    (settings : Settings) (converter : Text → Option Text) where
  -- If `syncMatrixMessageToMattermost` skips an event as one that came from Mattermost: its post is
  -- there, or it names the remote of this bridge.
  unfoldable pub is_our_own : MatrixEvent → S → Bool
  is_our_own event s =
      let (post_id, remote_id) = extract_mattermost_metadata event in
      let there : Bool = elim (mm.get_post post_id s) [ none ↦ false | some post ↦ true ] in
      (not (post_id == []) && there) || (not (remote_id == []) && remote_id == settings.remote_id)

  -- the root of the thread of an event that a message relates to: its post, or that of the primary
  -- message if the event is a file, and from there the root
  unfoldable pub root_of_parent : ℕ → Text → Text → Bridge S → Bridge S × Text
  root_of_parent now parent channel b =
      let (found, post_id) = get_post_id_from_matrix_event kv client now parent channel b in
      if not (post_id == [])
      then (found, get_thread_root_from_post_id mm post_id found.store)
      else (let (related, primary_id) =
            get_post_id_from_related_matrix_event kv client now parent channel found in
          (related, get_thread_root_from_post_id mm primary_id related.store))

  -- the root by one kind of relation
  unfoldable pub root_by : ℕ → Option Text → Text → Bridge S → Bridge S × Text
  root_by now none channel b = (b, [])
  root_by now (some parent) channel b = root_of_parent now parent channel b

  -- the root of the thread of a message: by its reply, and else by its thread
  unfoldable pub thread_root : ℕ → Fields → Text → Bridge S → Bridge S × Text
  thread_root now content channel b = elim (object_at (lit "m.relates_to") content) [
    | none ↦ (b, [])
    | some relates_to ↦
        let (replied, root) = root_by now (replied_to relates_to) channel b in
        if root == []
        then root_by now (threaded_under relates_to) channel replied
        else (replied, root)
  ]

  -- the end of both handlers: the post is created, and its mapping stored
  unfoldable pub create_and_map : Post → Text → Bridge S → Bridge S × Outcome
  create_and_map post event_id b = elim (mm.create_post post b.store) [
    | none ↦ (b, failed)
    | some (created, id) ↦
        (record b { store = store_matrix_event_post_mapping kv client event_id id created }, done)
  ]

  -- the end of `handleMatrixMessageEdit`: the post that was found gets the new text
  unfoldable pub edit_post : ℕ → Text → Text → Bridge S → Bridge S × Outcome
  edit_post timestamp message post_id b =
      if post_id == [] then (b, done) else elim (mm.get_post post_id b.store) [
        | none ↦ (b, failed)
        | some post ↦
            elim (mm.update_post (record post { message = message; edit_at = timestamp }) b.store) [
              | none ↦ (b, failed)
              | some after ↦ (record b { store = after }, done)
            ]
      ]

  -- `handleMatrixMessageEdit`
  unfoldable pub handle_matrix_message_edit : ℕ → MatrixEvent → Text → Bridge S → Bridge S × Outcome
  handle_matrix_message_edit now event channel b =
      let new_content = extract_matrix_message_content kv mm converter event.content b.store in
      elim (object_at (lit "m.relates_to") event.content) [
        | none ↦ (b, failed)
        | some relates_to ↦ elim (text_at (lit "event_id") relates_to) [
          | none ↦ (b, failed)
          | some original ↦
              let (found, post_id) =
                get_post_id_from_matrix_event kv client now original channel b in
              edit_post event.timestamp (convert_matrix_to_mattermost new_content) post_id found
        ]
      ]

  -- the root of a file by one kind of relation: the post itself
  unfoldable pub file_root_by : ℕ → Option Text → Text → Bridge S → Bridge S × Text
  file_root_by now none channel b = (b, [])
  file_root_by now (some parent) channel b =
      get_post_id_from_matrix_event kv client now parent channel b

  -- the root of the thread of a file
  unfoldable pub file_root : ℕ → Fields → Text → Bridge S → Bridge S × Text
  file_root now content channel b = elim (object_at (lit "m.relates_to") content) [
    | none ↦ (b, [])
    | some relates_to ↦
        let (replied, root) = file_root_by now (replied_to relates_to) channel b in
        if root == []
        then file_root_by now (threaded_under relates_to) channel replied
        else (replied, root)
  ]

  -- the end of `syncMatrixFileToMattermost`: the file is fetched, stored, and posted
  unfoldable pub post_file :
      ℕ → MatrixEvent → Text → Text → Text → Text → Bridge S → Bridge S × Outcome
  post_file now event channel body url user_id b = elim (client.download_file url) [
    | none ↦ (b, failed)
    | some content ↦ elim (mm.upload_file content channel body b.store) [
      | none ↦ (b, failed)
      | some (uploaded, file_id) ↦
          let (rooted, root) =
            file_root now event.content channel (record b { store = uploaded }) in
          create_and_map
            (record (post_of settings event channel user_id [] root) { file_ids = file_id ∷ [] })
            event.event_id rooted
    ]
  ]

  -- `syncMatrixFileToMattermost`
  unfoldable pub sync_matrix_file_to_mattermost :
      ℕ → MatrixEvent → Text → Bridge S → Bridge S × Outcome
  sync_matrix_file_to_mattermost now event channel b = elim (text_at (lit "body") event.content) [
    | none ↦ (b, done)
    | some body ↦ elim (text_at (lit "url") event.content) [
      | none ↦ (b, done)
      | some url ↦
          let (ready, user) =
            get_or_create_mattermost_user kv mm (some client) settings event.sender channel
              b.store in
          elim user [
            | none ↦ (record b { store = ready }, failed)
            | some user_id ↦
                post_file now event channel body url user_id (record b { store = ready })
          ]
    ]
  ]

  -- the end of `syncMatrixMessageToMattermost`, for a new message that is not a file
  unfoldable pub sync_new_message : ℕ → MatrixEvent → Text → Bridge S → Bridge S × Outcome
  sync_new_message now event channel b =
      let content = extract_matrix_message_content kv mm converter event.content b.store in
      if content == []
      then (b, done)
      else let (ready, user) =
          get_or_create_mattermost_user kv mm (some client) settings event.sender channel b.store in
        elim user [
          | none ↦ (record b { store = ready }, failed)
          | some user_id ↦
              let (rooted, root) =
                thread_root now event.content channel (record b { store = ready }) in
              create_and_map
                (post_of settings event channel user_id (convert_matrix_to_mattermost content) root)
                event.event_id rooted
        ]

  -- `syncMatrixMessageToMattermost`
  unfoldable pub sync_matrix_message_to_mattermost :
      ℕ → MatrixEvent → Text → Bridge S → Bridge S × Outcome
  sync_matrix_message_to_mattermost now event channel b =
      if is_our_own event b.store
      then (b, done)
      else if is_edit event.content
      then handle_matrix_message_edit now event channel b
      else if is_file event.content
      then sync_matrix_file_to_mattermost now event channel b
      else sync_new_message now event channel b
