-- ===== src/Markdown.antt =====
-- server/markdown_utils.go: the conversion of the Markdown of Mattermost to the HTML of Matrix.
pub mod Inline
pub mod Links
pub mod Lines
mod Tests
use mattermost_plugin_matrix.Prelude.{[], if◌then◌else◌, Text, ◌==◌}
use mattermost_plugin_matrix.Content.Spaces.{trim_space}
use mattermost_plugin_matrix.Markdown.Inline.{
  convert_code_blocks, convert_inline_code, convert_bold, convert_italic, convert_strikethrough,
}
use mattermost_plugin_matrix.Markdown.Links.{escape_string, convert_links}
use mattermost_plugin_matrix.Markdown.Lines.{convert_line_breaks, convert_headings, convert_tables}

-- `convertTablesWithFormatting`
unfoldable pub convert_tables_with_formatting : Text → Text
convert_tables_with_formatting content =
    convert_strikethrough (convert_italic (convert_bold (convert_tables content)))

-- `convertMarkdownToHTML`
unfoldable pub convert_markdown_to_html : Text → Text
convert_markdown_to_html markdown =
    if trim_space markdown == []
    then []
    else convert_links (
        convert_tables_with_formatting (
          convert_headings (
            convert_line_breaks
              (convert_inline_code (convert_code_blocks (escape_string markdown))))))

-- `convertMattermostToMatrix`
unfoldable pub convert_mattermost_to_matrix : Text → Text × Text
convert_mattermost_to_matrix content =
    let plain = trim_space content in
    let html = convert_markdown_to_html content in
    (plain, if html == escape_string plain then [] else html)
