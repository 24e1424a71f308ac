-- ===== src/Markdown/Lines.antt =====
-- server/markdown_utils.go: the conversions that read a text line by line.
use mattermost_plugin_matrix.Prelude.{
  ℕ, zero, suc, ◌+◌, ◌-◌, Bool, true, false, ◌&&◌, ◌||◌, not, ltb, eqb, none, some, List, [], ◌∷◌,
  ◌++◌, length, drop, if◌then◌else◌, Text, ◌==◌, lit, has_prefix,
}
use mattermost_plugin_matrix.Content.Spaces.{trim_space}
use mattermost_plugin_matrix.Markdown.Inline.{replace_matches, index_of}
use mattermost_plugin_matrix.Markdown.Links.{contains_byte}

-- `strings.Contains`
unfoldable pub contains : Text → Text → Bool
contains sep s = elim (index_of sep s) [ none ↦ false | some n ↦ true ]

-- A byte in front of the first of some texts.
abbrev onto : ℕ → List Text → List Text
onto c [] = (c ∷ []) ∷ []
onto c (s ∷ rest) = (c ∷ s) ∷ rest

-- `strings.Split` by a text that is not empty; the number is that of its bytes to pass over
unfoldable pub split : Text → ℕ → Text → List Text
split sep skip [] = [] ∷ []
split sep (suc skip) (c ∷ s) = split sep skip s
split sep zero (c ∷ s) =
    let after_sep = split sep (length sep - 1) s in
    let rest = split sep zero s in if has_prefix (c ∷ s) sep then [] ∷ after_sep else onto c rest

-- `strings.Join`
unfoldable pub join : Text → List Text → Text
join sep [] = []
join sep (s ∷ []) = s
join sep (s ∷ t ∷ rest) = s ++ sep ++ join sep (t ∷ rest)

-- `strings.ReplaceAll` of a text that is not empty
unfoldable pub replace_text : Text → Text → Text → Text
replace_text old new =
    replace_matches (λ start s. if has_prefix s old then some (length old - 1, new) else none) 0
      true

abbrev pub break : Text
break = lit "<br>"

-- `convertLineBreaks`
unfoldable pub convert_line_breaks : Text → Text
convert_line_breaks content =
    replace_text (10 ∷ []) break (replace_text (10 ∷ 10 ∷ []) break content)

-- `headingLevel`: the signs that a line starts with, six at most
unfoldable pub heading_level : ℕ → Text → ℕ
heading_level zero s = 0
heading_level (suc left) [] = 0
heading_level (suc left) (c ∷ s) =
    let rest = heading_level left s in if eqb c 35 then suc rest else 0

-- a heading, or a line as it is
unfoldable pub heading_line : Text → Text
heading_line line =
    let level = heading_level 6 line in
    let text = trim_space (drop (suc level) line) in
    let tag = lit "h" ++ (48 + level) ∷ [] in
    if not (eqb level 0) && has_prefix (drop level line) (lit " ") && not (text == [])
    then lit "<" ++ tag ++ lit ">" ++ text ++ lit "</" ++ tag ++ lit ">"
    else line

abbrev heading_lines : List Text → List Text
heading_lines [] = []
heading_lines (line ∷ lines) = heading_line (trim_space line) ∷ heading_lines lines

-- `convertHeadings`
unfoldable pub convert_headings : Text → Text
convert_headings content = join break (heading_lines (split break 0 content))

-- If a byte stands in a line that separates rows.
abbrev pub is_separator_byte : ℕ → Bool
is_separator_byte c = eqb c 124 || eqb c 32 || eqb c 45 || eqb c 58

-- If all bytes of a text are of a class.
unfoldable pub is_made_of : (ℕ → Bool) → Text → Bool
is_made_of is_one [] = true
is_made_of is_one (c ∷ s) = is_one c && is_made_of is_one s

-- `isTableSeparator`: the bytes that are removed are those of such a line
unfoldable pub is_table_separator : Text → Bool
is_table_separator line =
    contains_byte 124 line && is_made_of is_separator_byte line && contains_byte 45 line

-- `strings.Trim(s, " |")`, on the left
unfoldable pub trim_left_pipes : Text → Text
trim_left_pipes [] = []
trim_left_pipes (c ∷ s) =
    let rest = trim_left_pipes s in if eqb c 32 || eqb c 124 then rest else c ∷ s

-- `strings.Trim(s, " |")`, on the right
unfoldable pub trim_right_pipes : Text → Text
trim_right_pipes [] = []
trim_right_pipes (c ∷ s) =
    let rest = trim_right_pipes s in if rest == [] && (eqb c 32 || eqb c 124) then [] else c ∷ rest

-- the cells of `processTableRow`
unfoldable pub cells : Text → List Text → Text
cells tag [] = []
cells tag (cell ∷ rest) =
    lit "<" ++ tag ++ lit ">" ++ trim_space cell ++ lit "</" ++ tag ++ lit ">" ++ cells tag rest

-- `processTableRow`
unfoldable pub process_table_row : Text → Bool → Text
process_table_row line is_header =
    let tag = (if is_header then lit "th" else lit "td") in
    lit "<tr>"
    ++ cells tag (split (lit "|") 0 (trim_right_pipes (trim_left_pipes line)))
    ++ lit "</tr>"

-- the rows that have a header, or those that have none
unfoldable pub rows_with : Bool → List Text → List Text
rows_with header [] = []
rows_with header (row ∷ rows) =
    let rest = rows_with header rows in
    let has_header = contains (lit "<th>") row in
    if (header && has_header) || (not header && not has_header) then row ∷ rest else rest

-- a part of a table, if it has rows
unfoldable pub table_part : Text → List Text → Text
table_part tag [] = []
table_part tag (row ∷ rows) =
    lit "<" ++ tag ++ lit ">" ++ join [] (row ∷ rows) ++ lit "</" ++ tag ++ lit ">"

-- `buildHTMLTable`
unfoldable pub build_html_table : List Text → Text
build_html_table [] = []
build_html_table (row ∷ rows) =
    lit "<table>"
    ++ table_part (lit "thead") (rows_with true (row ∷ rows))
    ++ table_part (lit "tbody") (rows_with false (row ∷ rows))
    ++ lit "</table>"

-- If the next line separates rows.
abbrev before_separator : List Text → Bool
before_separator [] = false
before_separator (line ∷ lines) = is_table_separator (trim_space line)

-- the table that is open, in front of other lines
abbrev closed : Bool → List Text → List Text → List Text
closed false rows lines = lines
closed true rows lines = build_html_table rows ∷ lines

-- the loop of `convertTables`, with `inTable` and `tableRows`
unfoldable pub table_lines : Bool → List Text → List Text → List Text
table_lines in_table rows [] = closed (in_table && ltb 0 (length rows)) rows []
table_lines in_table rows (raw ∷ lines) =
    let line = trim_space raw in
    let skipped = table_lines in_table rows lines in
    let ended = closed in_table rows (line ∷ table_lines false [] lines) in
    let row = process_table_row line (before_separator lines) in
    let added = table_lines true ((if in_table then rows else []) ++ row ∷ []) lines in
    if line == []
    then ended
    else if is_table_separator line
    then skipped
    else if contains_byte 124 line && ltb 1 (length line)
    then added
    else ended

-- `convertTables`
unfoldable pub convert_tables : Text → Text
convert_tables content = join break (table_lines false [] (split break 0 content))
