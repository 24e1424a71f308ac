-- ===== src/ToMatrix/Attachments.antt =====
-- server/sync_to_matrix.go: whether the edit of a post changes anything, by its text and by the files
-- that were sent with it.
pub mod Resent
use mattermost_plugin_matrix.Prelude.{
  ℕ, ◌≡◌, Bool, true, false, ◌&&◌, ◌||◌, not, eqb, Option, none, some, List, [], ◌∷◌, map, length,
  if◌then◌else◌, Text, ◌==◌, lit,
}
use mattermost_plugin_matrix.Prelude.Int.{ℤ, equal}
use mattermost_plugin_matrix.Event.{Json, number, Fields, find, text_at, object_at, or_empty}
use mattermost_plugin_matrix.Tracker.Files.{PendingFile}
use mattermost_plugin_matrix.ToMattermost.Messages.{is_file}
use mattermost_plugin_matrix.ToMatrix.{MatrixServer}

-- `FileAttachment` (server/matrix/client.go)
pub record FileAttachment : Type 0 where
  pub filename : Text
  pub mxc_uri : Text
  pub mime_type : Text
  pub size : ℤ

-- the attachment of a pending file
unfoldable pub attachment_of : PendingFile → FileAttachment
attachment_of file = record {
  filename = file.filename;
  mxc_uri = file.mxc_uri;
  mime_type = file.mime_type;
  size = ℤ.pos file.size;
}

abbrev as_size : Option Json → ℤ
as_size (some (number n)) = n
as_size _ = ℤ.pos 0

-- the fields of an object, none for a missing one
abbrev fields_of : Option Fields → Fields
fields_of none = Fields.end
fields_of (some fields) = fields

-- the file information of the content of an event
unfoldable pub file_in : Fields → Option FileAttachment
file_in content =
    let info = fields_of (object_at (lit "info") content) in
    elim (text_at (lit "body") content) [
      | none ↦ none
      | some filename ↦ elim (text_at (lit "url") content) [
        | none ↦ none
        | some mxc_uri ↦ some (record {
          filename = filename;
          mxc_uri = mxc_uri;
          mime_type = or_empty (text_at (lit "mimetype") info);
          size = as_size (find (lit "size") info);
        })
      ]
    ]

-- If what an event relates to is the event of a post.
unfoldable pub belongs_to : Text → Fields → Bool
belongs_to event_id content = elim (object_at (lit "m.relates_to") content) [
  | none ↦ false
  | some relates_to ↦
      or_empty (text_at (lit "rel_type") relates_to) == lit "m.mattermost.post"
      && elim (text_at (lit "event_id") relates_to) [ none ↦ false | some id ↦ id == event_id ]
]

-- the attachment of a related event, if it is a file of the post
unfoldable pub attachment_in : Text → Fields → Option FileAttachment
attachment_in event_id event = elim (object_at (lit "content") event) [
  | none ↦ none
  | some content ↦
      if or_empty (text_at (lit "type") event) == lit "m.room.message"
        && is_file content
        && belongs_to event_id content
      then file_in content
      else none
]

-- the loop of `getCurrentMatrixFileAttachments`
unfoldable pub current_attachments : Text → List Fields → List FileAttachment
current_attachments event_id [] = []
current_attachments event_id (event ∷ events) =
    let rest = current_attachments event_id events in
    elim (attachment_in event_id event) [ none ↦ rest | some file ↦ file ∷ rest ]

-- If two attachments are the same.
unfoldable pub same_attachment : FileAttachment → FileAttachment → Bool
same_attachment f g =
    f.filename == g.filename
    && f.mxc_uri == g.mxc_uri
    && f.mime_type == g.mime_type
    && equal f.size g.size

-- the comparison of `areFileAttachmentsIdentical`: the counts, and then each of the files
unfoldable pub same_attachments : List FileAttachment → List FileAttachment → Bool
same_attachments [] [] = true
same_attachments (f ∷ fs) (g ∷ gs) = same_attachment f g && same_attachments fs gs
same_attachments _ _ = false

-- If a text is the name of one of the files.
unfoldable pub is_filename : Text → List FileAttachment → Bool
is_filename body [] = false
is_filename body (f ∷ fs) = body == f.filename || is_filename body fs

-- If the body of the current event is as the new text is, or is the name of one of the files of a
-- post that has no text.
unfoldable pub same_body : Option Text → Text → List FileAttachment → Bool
same_body none text files = false
same_body (some body) text files =
    if body == text then true else text == [] && is_filename body files

-- the comparison of the formatted texts
unfoldable pub same_html : Option Text → Text → Bool
same_html current html =
    if not (html == [])
    then elim current [ none ↦ false | some body ↦ body == html ]
    else or_empty current == []

-- `compareTextContent`
unfoldable pub compare_text_content : Fields → Text → Text → List FileAttachment → Bool
compare_text_content event text html files = elim (object_at (lit "content") event) [
  | none ↦ false
  | some content ↦
      same_body (text_at (lit "body") content) text files
      && same_html (text_at (lit "formatted_body") content) html
]

-- If a post has files only, and the event is that of one of them.
unfoldable pub is_file_only : Fields → Text → List FileAttachment → Bool
is_file_only event text files = text == [] && elim (object_at (lit "content") event) [
  | none ↦ false
  | some content ↦
      let body = or_empty (text_at (lit "body") content) in
      not (body == []) && is_filename body files
]

module _ {S : Type 0} (mx : MatrixServer S) where
  -- `areFileAttachmentsIdentical`
  unfoldable pub are_file_attachments_identical : Text → Text → List FileAttachment → S → Bool
  are_file_attachments_identical room_id event_id files s =
      elim (mx.get_relations room_id event_id [] s) [
        | none ↦ false
        | some relations ↦ same_attachments (current_attachments event_id relations) files
      ]

  -- `isMatrixContentIdentical`
  unfoldable pub is_matrix_content_identical :
      Fields → Text → Text → Text → Text → List FileAttachment → S → Bool
  is_matrix_content_identical event text html room_id event_id files s =
      if not (compare_text_content event text html files)
      then false
      else if is_file_only event text files
      then true
      else are_file_attachments_identical room_id event_id files s
