-- ===== src/Content.antt =====
-- server/bridge_utils.go: the text of a Matrix message, as Markdown with the mentions of Mattermost. The
-- package that converts HTML to Markdown is a parameter; none is an error of it.
pub mod Html
pub mod Spaces
pub mod Plain
mod Tests
use mattermost_plugin_matrix.Prelude.{
  ℕ, ◌≡◌, Bool, true, false, ◌&&◌, not, Option, none, some, List, [], ◌∷◌, if◌then◌else◌, Text,
  ◌==◌, lit,
}
use mattermost_plugin_matrix.Event.{
  Json, string, object, array, Fields, Items, last, item, find, text_at, object_at, or_empty,
}
use mattermost_plugin_matrix.Store.{KvStore, build_matrix_user_key}
use mattermost_plugin_matrix.Mattermost.{MattermostServer}
use mattermost_plugin_matrix.Ghost.{extract_mattermost_user_id_from_ghost}
use mattermost_plugin_matrix.Content.Html.{is_html, replace_matrix_mention_html, squeeze}
use mattermost_plugin_matrix.Content.Spaces.{trim_space}

-- the texts of an array
unfoldable pub texts : Items → List Text
texts last = []
texts (item (string s) rest) = s ∷ texts rest
texts (item _ rest) = texts rest

-- the type assertion `.([]any)`
abbrev pub as_items : Option Json → Items
as_items (some (array items)) = items
as_items _ = last

-- `extractMentionedUsers`
unfoldable pub extract_mentioned_users : Fields → List Text
extract_mentioned_users content = elim (object_at (lit "m.mentions") content) [
  | none ↦ []
  | some mentions ↦ texts (as_items (find (lit "user_ids") mentions))
]

-- `isHTMLContent`
unfoldable pub is_html_content : Text → Fields → Bool
is_html_content text content = elim (text_at (lit "format") content) [
  | none ↦ is_html text
  | some format ↦ format == lit "org.matrix.custom.html"
]

-- `formatted_body`, if there is one; one that is the same text as `body` is that text
unfoldable pub body_of : Fields → Text
body_of content = elim (text_at (lit "formatted_body") content) [
  | none ↦ or_empty (text_at (lit "body") content)
  | some formatted ↦ formatted
]

-- If a content says that it replaces that of another event.
unfoldable pub is_edit : Fields → Bool
is_edit content = elim (object_at (lit "m.relates_to") content) [
  | none ↦ false
  | some relates_to ↦ or_empty (text_at (lit "rel_type") relates_to) == lit "m.replace"
]

-- `cleanupMarkdown` (server/matrix_util.go)
unfoldable pub cleanup_markdown : Text → Text
cleanup_markdown markdown = trim_space (squeeze 0 markdown)

-- `convertHTMLToMarkdown` (server/matrix_util.go)
unfoldable pub convert_html_to_markdown : (Text → Option Text) → Text → Text
convert_html_to_markdown converter html = elim (converter html) [
  | none ↦ html
  | some markdown ↦ cleanup_markdown markdown
]

module _ {S : Type 0} (kv : KvStore S) (mm : MattermostServer S) where
  -- the Mattermost user that a Matrix user is or stands for, the empty text if there is none
  unfoldable pub mattermost_user_of : Text → S → Text
  mattermost_user_of matrix_user_id s =
      let ghost = extract_mattermost_user_id_from_ghost matrix_user_id in
      if not (ghost == [])
      then ghost
      else or_empty (kv.get (build_matrix_user_key matrix_user_id) s)

  -- `getMattermostUsernameFromMatrix`
  unfoldable pub get_mattermost_username_from_matrix : Text → S → Text
  get_mattermost_username_from_matrix matrix_user_id s =
      let id = mattermost_user_of matrix_user_id s in
      if id == [] then [] else elim (mm.get_user id s) [ none ↦ [] | some user ↦ user.username ]

  -- the loop of `processMatrixMentions`
  unfoldable pub replace_mentions : List Text → Text → S → Text
  replace_mentions [] html s = html
  replace_mentions (user ∷ users) html s =
      let username = get_mattermost_username_from_matrix user s in
      replace_mentions users
        (if username == [] then html else replace_matrix_mention_html user username 0 html) s

  -- `processMatrixMentions`
  unfoldable pub process_matrix_mentions : Text → Fields → S → Text
  process_matrix_mentions html content s = replace_mentions (extract_mentioned_users content) html s

  module _ (converter : Text → Option Text) where
    -- `convertHTMLToMarkdownWithMentions`
    unfoldable pub convert_html_to_markdown_with_mentions : Text → Fields → S → Text
    convert_html_to_markdown_with_mentions html content s =
        convert_html_to_markdown converter (process_matrix_mentions html content s)

    -- both halves of `extractMatrixMessageContent`, over the content that has the text
    unfoldable pub text_of : Fields → S → Text
    text_of content s =
        if is_html_content (body_of content) content
        then convert_html_to_markdown_with_mentions (body_of content) content s
        else body_of content

    -- `extractMatrixMessageContent`
    unfoldable pub extract_matrix_message_content : Fields → S → Text
    extract_matrix_message_content content s = elim (object_at (lit "m.new_content") content) [
      | none ↦ text_of content s
      | some new_content ↦ if is_edit content then text_of new_content s else text_of content s
    ]
