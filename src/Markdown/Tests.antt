-- ===== src/Markdown/Tests.antt =====
-- Runs of server/markdown_utils.go at fixed inputs, and its theorems applied to them.
use mattermost_plugin_matrix.Prelude.{◌≡◌, refl, not, ◌&&◌, ◌||◌, [], ◌++◌, ◌==◌, lit, has_prefix}
use mattermost_plugin_matrix.Content.Spaces.{
  space_width, fields, is_blank, trim_left, trim_right, trim_space,
}
use mattermost_plugin_matrix.ToMattermost.Names.{rune_tail}
use mattermost_plugin_matrix.Markdown.{
  convert_tables_with_formatting, convert_markdown_to_html, convert_mattermost_to_matrix,
}
use mattermost_plugin_matrix.Markdown.Inline
use mattermost_plugin_matrix.Markdown.Links
use mattermost_plugin_matrix.Markdown.Links.Protocols.{is_valid_url_iff}
use mattermost_plugin_matrix.Markdown.Links.Escaped.{markdown_link, convert_links-escape_string}
use mattermost_plugin_matrix.Markdown.Lines

program : Unit {0}
unfolding ◌==◌ has_prefix space_width fields is_blank trim_left trim_right trim_space rune_tail
    convert_tables_with_formatting convert_markdown_to_html convert_mattermost_to_matrix
    Inline.replace_matches Inline.span_until Inline.between Inline.wrap Inline.index_of
    Inline.language_of Inline.code_block Inline.code_block_at Inline.convert_code_blocks
    Inline.convert_inline_code Inline.convert_double Inline.convert_bold Inline.other_rune
    Inline.emphasis_after Inline.emphasis_at Inline.convert_italic Inline.convert_strikethrough
    Links.escape_byte Links.escape_string Links.lower_rune Links.to_lower Links.has_one_of
    Links.contains_byte Links.is_valid_url Links.link Links.link_at Links.convert_links
    Lines.contains Lines.split Lines.join Lines.replace_text Lines.convert_line_breaks
    Lines.heading_level Lines.heading_line Lines.convert_headings Lines.is_made_of
    Lines.is_table_separator Lines.trim_left_pipes Lines.trim_right_pipes Lines.cells
    Lines.process_table_row Lines.rows_with Lines.table_part Lines.build_html_table
    Lines.table_lines Lines.convert_tables
program = tt

emphasis :
    convert_markdown_to_html (lit "a *b* **c** _d_ ~~e~~ x_y")
    ≡ lit "a <em>b</em> <strong>c</strong> <em>d</em> <del>e</del> x_y"
unfolding program
emphasis = refl

heading : convert_markdown_to_html (lit "## T\nx < y") ≡ lit "<h2>T</h2><br>x &lt; y"
unfolding program
heading = refl

code :
    convert_markdown_to_html (lit "```go\nf()``` `a`")
    ≡ lit "<pre><code class=\"language-go\">f()</code></pre> <code>a</code>"
unfolding program
code = refl

table :
    convert_markdown_to_html (lit "|A|B|\n|-|-|\n|1|2|")
    ≡ lit
        "<table><thead><tr><th>A</th><th>B</th></tr></thead><tbody><tr><td>1</td><td>2</td></tr></tbody></table>"
unfolding program
table = refl

anchor : convert_markdown_to_html (lit "[a](http://b)") ≡ lit "<a href=\"http://b\">a</a>"
unfolding program
anchor = refl

refused : convert_markdown_to_html (lit "[a](JavaScript:b)") ≡ lit "[a](JavaScript:b)"
unfolding program
refused = refl

plain : convert_mattermost_to_matrix (lit " hi & bye ") ≡ (lit "hi & bye", [])
unfolding program
plain = refl

is_valid_url_iff_example : Links.is_valid_url (lit "MailTo:a") ≡ (
    not (lit "MailTo:a" == [])
    && (Links.has_one_of Links.valid_protocols (Links.to_lower 0 (lit "MailTo:a"))
        || not (Links.contains_byte 58 (lit "MailTo:a"))))
is_valid_url_iff_example = is_valid_url_iff (lit "MailTo:a")

convert_links-escape_string_example :
    Links.convert_links (Links.escape_string (markdown_link (lit "a") (lit "http://b?c&d")))
    ≡ lit "<a href=\""
      ++ Links.escape_string (Links.escape_string (lit "http://b?c&d"))
      ++ lit "\">"
      ++ Links.escape_string (lit "a")
      ++ lit "</a>"
unfolding program
convert_links-escape_string_example =
    convert_links-escape_string (lit "a") (lit "http://b?c&d") refl refl refl refl refl

-- The `&` of an address is escaped twice.
twice : Links.escape_string (Links.escape_string (lit "c&d")) ≡ lit "c&amp;amp;d"
unfolding program
twice = refl

-- Emphasis is applied within code and within the address of a link.
in_code : convert_markdown_to_html (lit "`a *b* c`") ≡ lit "<code>a <em>b</em> c</code>"
unfolding program
in_code = refl

in_address :
    convert_markdown_to_html (lit "[a](/b_c_/)") ≡ lit "<a href=\"/b&lt;em&gt;c&lt;/em&gt;/\">a</a>"
unfolding program
in_address = refl
