-- ===== src/ToMattermost/Emoji.antt =====
-- server/emoji.go and server/sync_to_mattermost.go: the Mattermost name of a Matrix emoji. The table of
-- server/emoji_mappings_generated.go is a parameter: its names in the order in which Go happens to
-- visit them, with their indices, and the code points of an index in hexadecimal.
pub mod Table
mod Tests
use mattermost_plugin_matrix.Prelude.{
  ℕ, zero, suc, ◌+◌, ◌-◌, ◌*◌, ◌/◌, ◌%◌, ◌^◌, Bool, true, false, ◌&&◌, ◌||◌, not, Option, none,
  some, List, [], ◌∷◌, ◌++◌, length, drop, leb, ltb, eqb, if◌then◌else◌, Text, ◌==◌, lit,
  has_prefix,
}
use mattermost_plugin_matrix.Content.Spaces.{within}
use mattermost_plugin_matrix.ToMattermost.Names.{rune_tail, lower_byte}

-- `strings.Split(s, "-")`, with the part that is read
unfoldable pub split_dashes : Text → Text → List Text
split_dashes part [] = part ∷ []
split_dashes part (c ∷ s) =
    if eqb c 45 then part ∷ split_dashes [] s else split_dashes (part ++ c ∷ []) s

-- the value of a hexadecimal digit
unfoldable pub hex_digit : ℕ → Option ℕ
hex_digit c =
    if within 48 57 c
    then some (c - 48)
    else if within 97 102 c
    then some (c - 87)
    else if within 65 70 c
    then some (c - 55)
    else none

-- the digits of `strconv.ParseInt`, after those that make up `n`
unfoldable pub hex_digits : ℕ → Text → Option ℕ
hex_digits n [] = some n
hex_digits n (c ∷ s) = elim (hex_digit c) [ none ↦ none | some d ↦ hex_digits (n * 16 + d) s ]

-- `strconv.ParseInt(part, 16, 32)`, of the values that the program uses, which are positive
unfoldable pub parse_hex : Text → Option ℕ
parse_hex [] = none
parse_hex (c ∷ s) =
    let digits = (if eqb c 43 then s else c ∷ s) in
    if digits == [] then none else elim (hex_digits 0 digits) [
      | none ↦ none
      | some n ↦ if ltb 0 n && ltb n (2 ^ 31) then some n else none
    ]

-- `WriteRune`: UTF-8, with U+FFFD for what is not a rune
unfoldable pub encode_rune : ℕ → Text
encode_rune n =
    if ltb n 128
    then n ∷ []
    else if ltb n 2048
    then (192 + n / 64) ∷ (128 + n % 64) ∷ []
    else if within 55296 57343 n || ltb 1114111 n
    then 239 ∷ 191 ∷ 189 ∷ []
    else if ltb n 65536
    then (224 + n / 4096) ∷ (128 + n / 64 % 64) ∷ (128 + n % 64) ∷ []
    else (240 + n / 262144) ∷ (128 + n / 4096 % 64) ∷ (128 + n / 64 % 64) ∷ (128 + n % 64) ∷ []

-- the loop of `hexToUnicode`
unfoldable pub encode_parts : List Text → Text
encode_parts [] = []
encode_parts (part ∷ parts) = elim (parse_hex part) [
  | none ↦ encode_parts parts
  | some n ↦ encode_rune n ++ encode_parts parts
]

-- `hexToUnicode`
unfoldable pub hex_to_unicode : Text → Text
hex_to_unicode hex = encode_parts (split_dashes [] hex)

-- `strings.ReplaceAll` of the three bytes of a rune by nothing; the number is that of the bytes that
-- the last one still has
unfoldable pub remove_rune : Text → ℕ → Text → Text
unfolding has_prefix
remove_rune rune skip [] = []
remove_rune rune (suc skip) (c ∷ s) = remove_rune rune skip s
remove_rune rune zero (c ∷ s) =
    if has_prefix (c ∷ s) rune then remove_rune rune 2 s else c ∷ remove_rune rune zero s

-- `stripVariation` of `convertMatrixEmojiToMattermost`
unfoldable pub strip_variation : Text → Text
strip_variation s = remove_rune (encode_rune 65038) 0 (remove_rune (encode_rune 65039) 0 s)

-- a byte of the class `[a-z0-9_+-]`
abbrev pub is_name_byte : ℕ → Bool
is_name_byte c = within 97 122 c || within 48 57 c || eqb c 95 || eqb c 43 || eqb c 45

abbrev pub all_bytes : (ℕ → Bool) → Text → Bool
all_bytes p [] = true
all_bytes p (c ∷ s) = p c && all_bytes p s

-- the regular expression `^[a-z0-9_+-]+$`
unfoldable pub is_simple_name : Text → Bool
is_simple_name s = not (s == []) && all_bytes is_name_byte s

-- `len([]rune(s))`
unfoldable pub rune_count : ℕ → Text → ℕ
rune_count skip [] = 0
rune_count (suc skip) (c ∷ s) = rune_count skip s
rune_count zero (c ∷ s) = suc (rune_count (rune_tail c s) s)

-- `safeName`: the letters and digits of a text in lower case
unfoldable pub safe_name : Text → Text
unfolding has_prefix
safe_name [] = []
safe_name (c ∷ s) =
    let rest = safe_name s in
    if within 97 122 (lower_byte c) || within 48 57 c
    then lower_byte c ∷ rest
    else if eqb c 196 && has_prefix s (176 ∷ [])
    then 105 ∷ rest
    else if eqb c 226 && has_prefix s (132 ∷ 170 ∷ [])
    then 107 ∷ rest
    else rest

-- the common emoji of the switch, by their code points
abbrev pub common_emoji : List (List ℕ × Text)
common_emoji =
    (128077 ∷ [], lit "+1")
    ∷ (128078 ∷ [], lit "-1")
    ∷ (10084 ∷ 65039 ∷ [], lit "heart")
    ∷ (10084 ∷ [], lit "heart")
    ∷ (128514 ∷ [], lit "joy")
    ∷ (128546 ∷ [], lit "cry")
    ∷ (128516 ∷ [], lit "smile")
    ∷ (128515 ∷ [], lit "smiley")
    ∷ (128522 ∷ [], lit "blush")
    ∷ (128293 ∷ [], lit "fire")
    ∷ (127881 ∷ [], lit "tada")
    ∷ (128079 ∷ [], lit "clap")
    ∷ []

abbrev pub encode_runes : List ℕ → Text
encode_runes [] = []
encode_runes (n ∷ ns) = encode_rune n ++ encode_runes ns

-- the default of the switch
unfoldable pub fallback_name : Text → Text
fallback_name emoji =
    if ltb 3 (rune_count 0 emoji)
    then lit "question"
    else if ltb (length (safe_name emoji)) 2
    then lit "question"
    else safe_name emoji

-- the switch
unfoldable pub common_name : List (List ℕ × Text) → Text → Text
common_name [] emoji = fallback_name emoji
common_name ((runes, name) ∷ rest) emoji =
    if encode_runes runes == emoji then name else common_name rest emoji

module _ (names : List (Text × ℕ)) (unicode_of : ℕ → Option Text) where
  -- If the table has a name.
  unfoldable pub has_name : List (Text × ℕ) → Text → Bool
  has_name [] emoji = false
  has_name ((name, index) ∷ rest) emoji = name == emoji || has_name rest emoji

  -- the Unicode text of an index, with something done to it
  unfoldable pub shows : (Text → Text) → ℕ → Text → Bool
  shows f index emoji = elim (unicode_of index) [
    | none ↦ false
    | some hex ↦ f (hex_to_unicode hex) == emoji
  ]

  -- a loop over the table: the first name whose text is the emoji
  unfoldable pub first_name : (Text → Text) → List (Text × ℕ) → Text → Option Text
  first_name f [] emoji = none
  first_name f ((name, index) ∷ rest) emoji =
      if shows f index emoji then some name else first_name f rest emoji

  -- the second loop and the switch
  unfoldable pub similar_name : Text → Text
  similar_name emoji =
      let stripped = strip_variation emoji in
      if stripped == emoji
      then common_name common_emoji emoji
      else elim (first_name strip_variation names stripped) [
        | none ↦ common_name common_emoji emoji
        | some name ↦ name
      ]

  -- `convertMatrixEmojiToMattermost`
  unfoldable pub convert_matrix_emoji_to_mattermost : Text → Text
  convert_matrix_emoji_to_mattermost emoji =
      if is_simple_name emoji && has_name names emoji
      then emoji
      else elim (first_name (λ s. s) names emoji) [ none ↦ similar_name emoji | some name ↦ name ]
