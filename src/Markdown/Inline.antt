-- ===== src/Markdown/Inline.antt =====
-- server/markdown_utils.go: the conversions of code, emphasis and links, whose regular expressions are
-- functions on bytes.
use mattermost_plugin_matrix.Prelude.{
  ℕ, zero, suc, ◌+◌, ◌-◌, Bool, true, false, ◌&&◌, ◌||◌, not, eqb, Option, none, some, [], ◌∷◌,
  ◌++◌, length, take, drop, if◌then◌else◌, Text, ◌==◌, lit, has_prefix,
}
use mattermost_plugin_matrix.Content.Spaces.{within}
use mattermost_plugin_matrix.ToMattermost.Names.{rune_tail}

-- A match at the start of a text: the number of its bytes after the first, and what replaces it.
abbrev pub Match : Type 0
Match = Option (ℕ × Text)

-- The bytes that the rest of a match has.
abbrev pub left_over : Match → ℕ
left_over none = 0
left_over (some (n, out)) = n

-- `ReplaceAllString` and `ReplaceAllStringFunc`, for matches of a text whose start is told by the Boolean
-- (true at the start of the whole text). The number is that of the bytes of a match to pass over.
unfoldable pub replace_matches : (Bool → Text → Match) → ℕ → Bool → Text → Text
replace_matches match_at skip start [] = []
replace_matches match_at (suc skip) start (c ∷ s) = replace_matches match_at skip false s
replace_matches match_at zero start (c ∷ s) =
    let found = match_at start (c ∷ s) in
    let after_match = replace_matches match_at (left_over found) false s in
    let rest = replace_matches match_at zero false s in
    elim found [ none ↦ c ∷ rest | some (n, out) ↦ out ++ after_match ]

-- the bytes in front of the first one of a class, all of them if there is none
unfoldable pub span_until : (ℕ → Bool) → Text → Text
span_until is_end [] = []
span_until is_end (c ∷ s) = let rest = span_until is_end s in if is_end c then [] else c ∷ rest

-- A match that opens with a mark, has some bytes outside of a class, and closes with a mark.
unfoldable pub between : Text → (ℕ → Bool) → Text → Text → Option Text
between opening is_end closing s =
    let inner = span_until is_end (drop (length opening) s) in
    let rest = drop (length inner) (drop (length opening) s) in
    if has_prefix s opening && not (inner == []) && has_prefix rest closing
    then some inner
    else none

-- The match in an element.
unfoldable pub wrap : Text → (ℕ → Bool) → Text → Text → Text → Match
wrap mark is_end opening closing s = elim (between mark is_end mark s) [
  | none ↦ none
  | some inner ↦ some (length mark + length inner + length mark - 1, opening ++ inner ++ closing)
]

-- the position of a text in another one; none is -1
unfoldable pub index_of : Text → Text → Option ℕ
index_of sep [] = if sep == [] then some 0 else none
index_of sep (c ∷ s) =
    let rest = index_of sep s in
    if has_prefix (c ∷ s) sep then some 0 else elim rest [ none ↦ none | some n ↦ some (suc n) ]

-- `\w`
abbrev is_word : ℕ → Bool
is_word c = within 48 57 c || within 65 90 c || within 97 122 c || eqb c 95

-- the name of a language with the end of its line, at the start of a code block
unfoldable pub language_of : Text → Option Text
language_of s =
    let name = span_until (λ c. not (is_word c)) s in
    if not (name == []) && has_prefix (drop (length name) s) (10 ∷ []) then some name else none

-- a code block
unfoldable pub code_block : Text → Text
code_block inner = elim (language_of inner) [
  | none ↦ lit "<pre><code>" ++ inner ++ lit "</code></pre>"
  | some language ↦
      lit "<pre><code class=\"language-"
      ++ language
      ++ lit "\">"
      ++ drop (suc (length language)) inner
      ++ lit "</code></pre>"
]

-- the expression for code blocks: three backticks, and the shortest text in front of three others
unfoldable pub code_block_at : Bool → Text → Match
code_block_at start s =
    if not (has_prefix s (lit "```")) then none else elim (index_of (lit "```") (drop 3 s)) [
      | none ↦ none
      | some n ↦ some (n + 5, code_block (take n (drop 3 s)))
    ]

-- `convertCodeBlocks`
unfoldable pub convert_code_blocks : Text → Text
convert_code_blocks = replace_matches code_block_at 0 true

-- `convertInlineCode`
unfoldable pub convert_inline_code : Text → Text
convert_inline_code =
    replace_matches (λ start. wrap (lit "`") (λ c. eqb c 96) (lit "<code>") (lit "</code>")) 0 true

-- the text in a mark of two bytes, as an element
unfoldable pub convert_double : ℕ → Text → Text → Text → Text
convert_double byte opening closing =
    replace_matches (λ start. wrap (byte ∷ byte ∷ []) (λ c. eqb c byte) opening closing) 0 true

-- `convertBold`
unfoldable pub convert_bold : Text → Text
convert_bold content =
    convert_double 95 (lit "<strong>") (lit "</strong>")
      (convert_double 42 (lit "<strong>") (lit "</strong>") content)

-- the bytes of the first rune of a text
abbrev first_rune : Text → Text
first_rune [] = []
first_rune (c ∷ s) = c ∷ take (rune_tail c s) s

-- `([^x]|$)` for a byte: the rune in front of which there is none, and the empty text at the end
unfoldable pub other_rune : ℕ → Text → Option Text
other_rune byte [] = some []
other_rune byte (c ∷ s) = if eqb c byte then none else some (first_rune (c ∷ s))

-- `x([^x\n]+)x([^x]|$)` for a byte, after what the expression has in front of it
unfoldable pub emphasis_after : ℕ → Text → Text → Match
emphasis_after byte before s =
    elim (between (byte ∷ []) (λ c. eqb c byte || eqb c 10) (byte ∷ []) s) [
      | none ↦ none
      | some inner ↦ elim (other_rune byte (drop (length inner + 2) s)) [
        | none ↦ none
        | some after ↦ some (
          length before + length inner + 1 + length after,
          before ++ lit "<em>" ++ inner ++ lit "</em>" ++ after,
        )
      ]
    ]

-- `(^|[^x])x([^x\n]+)x([^x]|$)` for a byte
unfoldable pub emphasis_at : ℕ → Bool → Text → Match
emphasis_at byte start [] = none
emphasis_at byte start (c ∷ s) =
    let before = first_rune (c ∷ s) in
    if eqb c byte
    then if start then emphasis_after byte [] (c ∷ s) else none
    else emphasis_after byte before (drop (length before) (c ∷ s))

-- `convertItalic`
unfoldable pub convert_italic : Text → Text
convert_italic content =
    replace_matches (emphasis_at 95) 0 true (replace_matches (emphasis_at 42) 0 true content)

-- `convertStrikethrough`
unfoldable pub convert_strikethrough : Text → Text
convert_strikethrough = convert_double 126 (lit "<del>") (lit "</del>")
