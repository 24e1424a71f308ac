-- ===== src/ToMatrix/Sending.antt =====
-- server/matrix/client.go: the messages for a post, as `SendMessage` sends them: the text, and each of
-- the files.
pub mod Attached
use mattermost_plugin_matrix.Prelude.{
  ℕ, ◌≡◌, Bool, true, false, ◌&&◌, ◌||◌, not, Option, none, some, List, [], ◌∷◌, ◌++◌,
  if◌then◌else◌, Text, ◌==◌, lit, has_prefix,
}
use mattermost_plugin_matrix.Event.{
  Json, string, number, object, array, Fields, end, entry, Items, last, item, or_empty,
}
use mattermost_plugin_matrix.ToMatrix.{MatrixServer}
use mattermost_plugin_matrix.ToMatrix.Attachments.{FileAttachment}

-- `MessageRequest`; the mentions are the identifiers of the users
pub record MessageRequest : Type 0 where
  pub room_id : Text
  pub ghost_user_id : Text
  pub message : Text
  pub html_message : Text
  pub thread_event_id : Text
  pub post_id : Text
  pub files : List FileAttachment
  pub mentions : List Text

-- an entry for a text that is not empty
abbrev pub with_text : Text → Text → Fields → Fields
with_text key value rest = if value == [] then rest else entry key (string value) rest

-- an object with a relation
unfoldable pub relates_to : Text → Text → Fields
relates_to rel_type event_id =
    entry (lit "rel_type") (string rel_type) (entry (lit "event_id") (string event_id) end)

-- the relation of a message: to its thread, or else to the first message of the post
unfoldable pub with_relation : MessageRequest → Text → Fields → Fields
with_relation req root rest =
    if not (req.thread_event_id == [])
    then entry (lit "m.relates_to") (object (relates_to (lit "m.thread") req.thread_event_id)) rest
    else if not (root == [])
    then entry (lit "m.relates_to") (object (relates_to (lit "m.mattermost.post") root)) rest
    else rest

-- the metadata of a message
unfoldable pub metadata : Text → MessageRequest → Fields
metadata remote_id req =
    with_text (lit "mattermost_post_id") req.post_id
      (with_text (lit "mattermost_remote_id") remote_id end)

abbrev pub items : List Text → Items
items [] = last
items (x ∷ xs) = item (string x) (items xs)

-- the mentions of a text
unfoldable pub with_user_ids : List Text → Fields → Fields
with_user_ids [] rest = rest
with_user_ids (user ∷ users) rest =
    entry (lit "m.mentions") (object (entry (lit "user_ids") (array (items (user ∷ users))) end))
      rest

-- the text with its format
unfoldable pub text_fields : Text → Text → Fields → Fields
text_fields message html rest = entry (lit "msgtype") (string (lit "m.text")) (
    entry (lit "body") (string message) (
      if html == []
      then rest
      else entry (lit "format") (string (lit "org.matrix.custom.html"))
          (entry (lit "formatted_body") (string html) rest)))

-- the content of `sendTextMessage`
unfoldable pub text_content : Text → MessageRequest → Text → Fields
text_content remote_id req root =
    text_fields req.message req.html_message
      (with_user_ids req.mentions (with_relation req root (metadata remote_id req)))

-- the type of a file message
unfoldable pub file_type : Text → Text
file_type mime_type =
    if has_prefix mime_type (lit "image/")
    then lit "m.image"
    else if has_prefix mime_type (lit "video/")
    then lit "m.video"
    else if has_prefix mime_type (lit "audio/")
    then lit "m.audio"
    else lit "m.file"

-- the content of `sendFileMessage`
unfoldable pub file_content : Text → MessageRequest → FileAttachment → Text → Fields
file_content remote_id req file root = entry (lit "msgtype") (string (file_type file.mime_type)) (
    entry (lit "body") (string file.filename) (
      entry (lit "url") (string file.mxc_uri) (
        entry (lit "info")
          (object (
            entry (lit "size") (number file.size)
              (entry (lit "mimetype") (string file.mime_type) end)))
          (with_relation req root (metadata remote_id req)))))

-- the content of `EditMessageAsGhost`
unfoldable pub content_of_edit : Text → Text → Text → Fields
content_of_edit event_id message html = entry (lit "msgtype") (string (lit "m.text")) (
    entry (lit "body") (string (lit " * " ++ message)) (
      entry (lit "m.new_content") (object (text_fields message html end))
        (entry (lit "m.relates_to") (object (relates_to (lit "m.replace") event_id)) end)))

module _ {S : Type 0} (mx : MatrixServer S) (remote_id : Text) where
  -- the files of `sendMattermostPost`, with the event that stands for the post so far
  unfoldable pub send_files :
      MessageRequest → Option Text → List FileAttachment → S → S × Option Text
  send_files req primary [] s = (s, primary)
  send_files req primary (file ∷ files) s =
      elim (mx.send_event req.room_id (file_content remote_id req file (or_empty primary))
        req.ghost_user_id s) [
          | none ↦ send_files req primary files s
          | some (sent, id) ↦
              send_files req (elim primary [ none ↦ some id | some first ↦ some first ]) files sent
        ]

  -- `sendMattermostPost`
  unfoldable pub send_mattermost_post : MessageRequest → S → S × Option Text
  send_mattermost_post req s =
      if req.message == [] && req.html_message == []
      then send_files req none req.files s
      else elim (mx.send_event req.room_id (text_content remote_id req []) req.ghost_user_id s) [
        | none ↦ (s, none)
        | some (sent, id) ↦ send_files req (some id) req.files sent
      ]

  abbrev no_files : List FileAttachment → Bool
  no_files [] = true
  no_files (f ∷ fs) = false

  -- `SendMessage`: the event that stands for the post
  unfoldable pub send_message : MessageRequest → S → S × Option Text
  send_message req s =
      if not (mx.ready s) || req.room_id == [] || req.ghost_user_id == []
      then (s, none)
      else if req.message == [] && req.html_message == [] && no_files req.files
      then (s, none)
      else send_mattermost_post req s

  -- `EditMessageAsGhost`
  unfoldable pub edit_message_as_ghost : Text → Text → Text → Text → Text → S → Option (S × Text)
  edit_message_as_ghost room_id event_id message html ghost s =
      if not (mx.ready s)
      then none
      else mx.send_event room_id (content_of_edit event_id message html) ghost s
