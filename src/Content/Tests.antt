-- ===== src/Content/Tests.antt =====
-- The text of messages (server/bridge_utils.go) at fixed inputs.
use mattermost_plugin_matrix.Prelude.{
  ◌≡◌, refl, true, false, Option, some, Text, ◌==◌, lit, has_prefix, trim_prefix, index_byte,
}
use mattermost_plugin_matrix.Prelude.Dict
use mattermost_plugin_matrix.Event.{
  find, text_at, object_at, end, entry, string, object, array, item, last, Fields,
}
use mattermost_plugin_matrix.Ghost.{extract_mattermost_user_id_from_ghost}
use mattermost_plugin_matrix.Store.{build_matrix_user_key}
use mattermost_plugin_matrix.Store.Memory.{value_of}
use mattermost_plugin_matrix.Mattermost.InMemory.{server, server_kv}
use mattermost_plugin_matrix.ToMattermost.Sample.{start}
use mattermost_plugin_matrix.Content.Html.{
  is_html, is_tag, is_entity, tag_step, after_literal, after_spaces, skip_spaces, after_quote_mark,
  after_byte, from_byte, after_link_text, after_mention, replace_matrix_mention_html, squeeze,
}
use mattermost_plugin_matrix.Content.Spaces.{
  space_width, fields, is_blank, trim_left, trim_right, trim_space,
}
use mattermost_plugin_matrix.Content.{
  texts, extract_mentioned_users, is_html_content, body_of, is_edit, cleanup_markdown,
  convert_html_to_markdown, mattermost_user_of, get_mattermost_username_from_matrix,
  replace_mentions, process_matrix_mentions, convert_html_to_markdown_with_mentions, text_of,
  extract_matrix_message_content,
}

program : Unit {0}
unfolding Dict.get ◌==◌ has_prefix trim_prefix index_byte find text_at object_at
    extract_mattermost_user_id_from_ghost build_matrix_user_key value_of is_html is_tag is_entity
    tag_step after_literal after_spaces skip_spaces after_quote_mark after_byte from_byte
    after_link_text after_mention replace_matrix_mention_html squeeze space_width fields is_blank
    trim_left trim_right trim_space texts extract_mentioned_users is_html_content body_of is_edit
    cleanup_markdown convert_html_to_markdown mattermost_user_of get_mattermost_username_from_matrix
    replace_mentions process_matrix_mentions convert_html_to_markdown_with_mentions text_of
    extract_matrix_message_content
program = tt

abbrev same : Text → Option Text
same html = some html

tags : (is_html (lit "a <b class=\"x\"> c") ≡ true) × (is_html (lit "1 < 2 & 3") ≡ false)
unfolding program
tags = (refl, refl)

entities : (is_html (lit "a &amp; b") ≡ true) × (is_html (lit "a &; b") ≡ false)
unfolding program
entities = (refl, refl)

-- a mention of the user that the store has for @a:hs
abbrev mention : Fields
mention = entry (lit "body") (string (lit "Al: hi")) (
    entry (lit "formatted_body") (string (lit "<a href=\"https://matrix.to/#/@a:hs\">Al</a>: hi")) (
      entry (lit "m.mentions")
        (object (entry (lit "user_ids") (array (item (string (lit "@a:hs")) last)) end)) end))

mentioned : extract_matrix_message_content server_kv server same mention start ≡ lit "@matrix:a: hi"
unfolding program
mentioned = refl

trimmed : cleanup_markdown (lit " \n a\n\n\n\nb \n") ≡ lit "a\n\nb"
unfolding program
trimmed = refl

abbrev changed : Fields
changed =
    entry (lit "m.relates_to") (object (entry (lit "rel_type") (string (lit "m.replace")) end)) (
      entry (lit "body") (string (lit "* bye"))
        (entry (lit "m.new_content") (object (entry (lit "body") (string (lit "bye")) end)) end))
