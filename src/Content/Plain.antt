-- ===== src/Content/Plain.antt =====
-- What `extractMatrixMessageContent` (server/bridge_utils.go) makes of plain texts and of edits.
use mattermost_plugin_matrix.Prelude.{
  ◌≡◌, refl, Bool, true, false, ◌&&◌, not, Option, none, some, [], ◌∷◌, eqb, Text, lit, arith,
}
use mattermost_plugin_matrix.Event.{Fields, text_at, object_at}
use mattermost_plugin_matrix.Store.{KvStore}
use mattermost_plugin_matrix.Mattermost.{MattermostServer}
use mattermost_plugin_matrix.Content.Html.{is_html}
use mattermost_plugin_matrix.Content.{
  is_html_content, body_of, is_edit, text_of, extract_matrix_message_content,
}

-- No less-than sign and no ampersand.
abbrev pub is_plain : Text → Bool
is_plain [] = true
is_plain (c ∷ s) = not (eqb c 60) && not (eqb c 38) && is_plain s

is_html-plain : (s : Text) → is_plain s ≡ true → is_html s ≡ false
unfolding is_html
is_html-plain [] h = refl
is_html-plain (c ∷ s) h = ground (arith, is_html-plain s)

module _ {S : Type 0} (kv : KvStore S) (mm : MattermostServer S)
    (converter : Text → Option Text) where
  -- A new message keeps its body as it is, whatever the package that converts HTML would do, if it has
  -- no other body, says no format, and has no less-than sign and no ampersand in it.
  pub extract_matrix_message_content-plain :
      (content : Fields) (body : Text) (s : S)
      → object_at (lit "m.new_content") content ≡ none
      → text_at (lit "body") content ≡ some body
      → text_at (lit "formatted_body") content ≡ none
      → text_at (lit "format") content ≡ none
      → is_plain body ≡ true
      → extract_matrix_message_content kv mm converter content s ≡ body
  unfolding extract_matrix_message_content text_of body_of is_html_content
  extract_matrix_message_content-plain content body s new has unformatted no_format plain =
      rw (new, extract_matrix_message_content)
        (rw (unformatted, body_of)
          (rw (no_format, is_html_content) (rw has (rw (is_html-plain body plain) refl))))

  -- The text of an edit is the text that a new message with the new content of the edit has, unless
  -- that new content says it is an edit itself.
  pub extract_matrix_message_content-edit :
      (content new_content : Fields) (s : S)
      → is_edit content ≡ true
      → object_at (lit "m.new_content") content ≡ some new_content
      → is_edit new_content ≡ false
      → extract_matrix_message_content kv mm converter content s
        ≡ extract_matrix_message_content kv mm converter new_content s
  unfolding extract_matrix_message_content
  extract_matrix_message_content-edit content new_content s edit new inner =
      rw (new, extract_matrix_message_content) (rw edit (ground (arith, inner)))
