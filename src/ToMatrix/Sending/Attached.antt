-- ===== src/ToMatrix/Sending/Attached.antt =====
-- The files of a post, as server/matrix/client.go sends them and server/sync_to_matrix.go finds them.
use mattermost_plugin_matrix.Prelude.{
  ◌≡◌, refl, true, false, none, some, Bool-cases, inl, inr, [], if◌then◌else◌, Text, ◌==◌, eq_refl,
  lit, has_prefix,
}
use mattermost_plugin_matrix.Event.{string, object, Fields, end, entry, find, text_at, object_at}
use mattermost_plugin_matrix.ToMattermost.Messages.{is_file}
use mattermost_plugin_matrix.ToMatrix.Attachments.{
  FileAttachment, attachment_in, file_in, belongs_to,
}
use mattermost_plugin_matrix.ToMatrix.Sending.{
  MessageRequest, file_type, file_content, with_relation, relates_to,
}

-- The event of a message with a content.
abbrev pub message_event : Fields → Fields
message_event content =
    entry (lit "type") (string (lit "m.room.message")) (entry (lit "content") (object content) end)

file_type-is_file :
    (mime_type : Text) (rest : Fields)
    → is_file (entry (lit "msgtype") (string (file_type mime_type)) rest) ≡ true
unfolding is_file file_type text_at find ◌==◌
file_type-is_file mime_type rest = elim (Bool-cases (has_prefix mime_type (lit "image/"))) [
  | inl e ↦ rw e refl
  | inr e ↦ rw e (elim (Bool-cases (has_prefix mime_type (lit "video/"))) [
    | inl f ↦ rw f refl
    | inr f ↦ rw f (elim (Bool-cases (has_prefix mime_type (lit "audio/"))) [
      | inl g ↦ rw g refl
      | inr g ↦ rw g refl
    ])
  ])
]

file_content-is_file :
    (remote_id root : Text) (req : MessageRequest) (file : FileAttachment)
    → is_file (file_content remote_id req file root) ≡ true
unfolding file_content
file_content-is_file remote_id root req file = file_type-is_file file.mime_type _

-- The file is read as it was sent.
file_in-file_content :
    (remote_id root : Text) (req : MessageRequest) (file : FileAttachment)
    → file_in (file_content remote_id req file root) ≡ some file
unfolding file_in file_content text_at object_at find ◌==◌
file_in-file_content remote_id root req file = refl

belongs_to-file_content :
    (remote_id root : Text) (req : MessageRequest) (file : FileAttachment)
    → (root == []) ≡ false
    → belongs_to root (file_content remote_id req file root) ≡ (req.thread_event_id == [])
unfolding belongs_to file_content with_relation relates_to text_at object_at find ◌==◌
belongs_to-file_content remote_id root req file named =
    elim (Bool-cases (req.thread_event_id == [])) [
      | inl e ↦ rw (e, named) (eq_refl root)
      | inr e ↦ rw e refl
    ]

-- The message of a file that is sent after the first message of a post, whose event has an identifier
-- that is not empty, is found again as that file, with its name, address, type and size, by the comparison of attachments, if the post is in no thread. In a
-- thread it is not found.
pub attachment_in-file_content :
    (remote_id root : Text) (req : MessageRequest) (file : FileAttachment)
    → (root == []) ≡ false
    → attachment_in root (message_event (file_content remote_id req file root))
      ≡ (if req.thread_event_id == [] then some file else none)
unfolding attachment_in text_at object_at find ◌==◌
attachment_in-file_content remote_id root req file named =
    rw
      (
        belongs_to-file_content remote_id root req file named,
        file_in-file_content remote_id root req file,
        file_content-is_file remote_id root req file,
      )
      refl
