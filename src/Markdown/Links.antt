-- ===== src/Markdown/Links.antt =====
-- server/markdown_utils.go: links, and the addresses that they may have.
pub mod Protocols
pub mod Escaped
use mattermost_plugin_matrix.Prelude.{
  ℕ, zero, suc, ◌+◌, ◌-◌, Bool, true, false, ◌&&◌, ◌||◌, not, eqb, Option, none, some, List, [],
  ◌∷◌, ◌++◌, length, take, drop, if◌then◌else◌, Text, ◌==◌, lit, has_prefix, index_byte,
}
use mattermost_plugin_matrix.ToMattermost.Names.{lower_byte, rune_tail}
use mattermost_plugin_matrix.Markdown.Inline.{Match, replace_matches, between}

-- `EscapeString` of package html, for one byte
unfoldable pub escape_byte : ℕ → Text
escape_byte c =
    if eqb c 38
    then lit "&amp;"
    else if eqb c 39
    then lit "&#39;"
    else if eqb c 60
    then lit "&lt;"
    else if eqb c 62
    then lit "&gt;"
    else if eqb c 34
    then lit "&#34;"
    else c ∷ []

-- `EscapeString` of package html
unfoldable pub escape_string : Text → Text
escape_string [] = []
escape_string (c ∷ s) = escape_byte c ++ escape_string s

-- the first byte of a rune in lower case. The only two runes above 127 with a lower case below it are
-- the dotted I and the sign for Kelvin.
unfoldable pub lower_rune : ℕ → Text → ℕ
lower_rune c s =
    if eqb c 196 && has_prefix s (176 ∷ [])
    then 105
    else if eqb c 226 && has_prefix s (132 ∷ 170 ∷ [])
    then 107
    else lower_byte c

-- `strings.ToLower`, for the comparison with texts of ASCII: of other runes, the first byte is kept
unfoldable pub to_lower : ℕ → Text → Text
to_lower skip [] = []
to_lower (suc skip) (c ∷ s) = to_lower skip s
to_lower zero (c ∷ s) = lower_rune c s ∷ to_lower (rune_tail c s) s

-- If a text has one of some prefixes.
unfoldable pub has_one_of : List Text → Text → Bool
has_one_of [] s = false
has_one_of (p ∷ ps) s = has_prefix s p || has_one_of ps s

abbrev pub valid_protocols : List Text
valid_protocols = lit "http://" ∷ lit "https://" ∷ lit "ftp://" ∷ lit "mailto:" ∷ []

abbrev pub dangerous_protocols : List Text
dangerous_protocols = lit "javascript:" ∷ lit "data:" ∷ lit "vbscript:" ∷ lit "file:" ∷ []

-- `strings.Contains(s, c)` for a byte
unfoldable pub contains_byte : ℕ → Text → Bool
contains_byte byte [] = false
contains_byte byte (c ∷ s) = eqb c byte || contains_byte byte s

-- `isValidURL`
unfoldable pub is_valid_url : Text → Bool
is_valid_url url =
    if url == []
    then false
    else if has_one_of valid_protocols (to_lower 0 url)
    then true
    else if has_one_of dangerous_protocols (to_lower 0 url)
    then false
    else not (contains_byte 58 url)

-- a link, or the text that it is written with if its address is not valid
unfoldable pub link : Text → Text → Text
link text url =
    if is_valid_url url
    then lit "<a href=\"" ++ escape_string url ++ lit "\">" ++ text ++ lit "</a>"
    else lit "[" ++ text ++ lit "](" ++ url ++ lit ")"

-- the expression for links
unfoldable pub link_at : Bool → Text → Match
link_at start s = elim (between (lit "[") (λ c. eqb c 93) (lit "](") s) [
  | none ↦ none
  | some text ↦ elim (between (lit "](") (λ c. eqb c 41) (lit ")") (drop (suc (length text)) s)) [
    | none ↦ none
    | some url ↦ some (length text + length url + 3, link text url)
  ]
]

-- `convertLinks`
unfoldable pub convert_links : Text → Text
convert_links = replace_matches link_at 0 true
