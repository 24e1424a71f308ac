-- ===== src/Content/Html.antt =====
-- server/bridge_utils.go and server/matrix_util.go: the regular expressions that look at the HTML of
-- messages, as automata, and the clean-up of the Markdown that is made of it.
use mattermost_plugin_matrix.Prelude.{
  ℕ, zero, suc, ◌-◌, Bool, true, false, ◌&&◌, ◌||◌, Option, none, some, [], ◌∷◌, ◌++◌, length, drop,
  leb, eqb, if◌then◌else◌, Text, lit, has_prefix,
}

-- If a byte is between two others, the bounds included.
abbrev within : ℕ → ℕ → ℕ → Bool
within low high c = leb low c && leb c high

abbrev is_letter : ℕ → Bool
is_letter c = within 65 90 c || within 97 122 c

abbrev is_digit : ℕ → Bool
is_digit c = within 48 57 c

-- `\s` of a regular expression
abbrev pub is_space : ℕ → Bool
is_space c = eqb c 9 || eqb c 10 || eqb c 12 || eqb c 13 || eqb c 32

-- How far `htmlTagRegex` has been matched.
pub data TagState : Type 0 where
  opened closing name spaces attribute equals quoted unquoted slash matched unmatched : TagState

-- What may follow the name of a tag or the value of an attribute.
abbrev pub after_part : ℕ → TagState
after_part c =
    if is_space c
    then spaces
    else if eqb c 47
    then slash
    else if eqb c 62
    then matched
    else unmatched

-- one byte of `htmlTagRegex`, after its first
unfoldable pub tag_step : TagState → ℕ → TagState
tag_step opened c = if is_letter c then name else if eqb c 47 then closing else unmatched
tag_step closing c = if is_letter c then name else unmatched
tag_step name c = if is_letter c || is_digit c then name else after_part c
tag_step spaces c = if is_letter c || eqb c 45 then attribute else after_part c
tag_step attribute c =
    if is_letter c || eqb c 45 then attribute else if eqb c 61 then equals else after_part c
tag_step equals c = if eqb c 34 then quoted else unmatched
tag_step quoted c = if eqb c 34 then unquoted else quoted
tag_step unquoted c = after_part c
tag_step slash c = if eqb c 62 then matched else unmatched
tag_step matched c = matched
tag_step unmatched c = unmatched

unfoldable pub is_tag : TagState → Text → Bool
is_tag matched s = true
is_tag state [] = false
is_tag state (c ∷ s) = is_tag (tag_step state c) s

-- `[a-zA-Z0-9#]+;` of `htmlEntityRegex`; the Boolean tells if a byte of the class has been read
unfoldable pub is_entity : Bool → Text → Bool
is_entity started [] = false
is_entity started (c ∷ s) =
    let rest = is_entity true s in
    if is_letter c || is_digit c || eqb c 35 then rest else started && eqb c 59

-- `isHTML`
unfoldable pub is_html : Text → Bool
is_html [] = false
is_html (c ∷ s) =
    let rest = is_html s in (eqb c 60 && is_tag opened s) || (eqb c 38 && is_entity false s) || rest

infixl 5 ◌>>=◌
abbrev ◌>>=◌ : {A B : Type 0} → Option A → (A → Option B) → Option B
none >>= f = none
(some a) >>= f = f a

-- What follows a literal, if the text starts with it.
unfoldable pub after_literal : Text → Text → Option Text
unfolding has_prefix
after_literal p s = if has_prefix s p then some (drop (length p) s) else none

-- What follows the white space of a text.
unfoldable pub skip_spaces : Text → Text
skip_spaces [] = []
skip_spaces (c ∷ s) = let rest = skip_spaces s in if is_space c then rest else c ∷ s

-- What follows the first byte that is `b`.
unfoldable pub after_byte : ℕ → Text → Option Text
after_byte b [] = none
after_byte b (c ∷ s) = let rest = after_byte b s in if eqb c b then some s else rest

-- What stands from the first byte that is `b`, if there is one.
unfoldable pub from_byte : ℕ → Text → Option Text
from_byte b [] = none
from_byte b (c ∷ s) = let rest = from_byte b s in if eqb c b then some (c ∷ s) else rest

-- `["']`
unfoldable pub after_quote_mark : Text → Option Text
after_quote_mark [] = none
after_quote_mark (c ∷ s) = if eqb c 34 || eqb c 39 then some s else none

-- `\s+`
unfoldable pub after_spaces : Text → Option Text
after_spaces [] = none
after_spaces (c ∷ s) = if is_space c then some (skip_spaces s) else none

-- `([^<]+)</a>`
unfoldable pub after_link_text : Text → Option Text
after_link_text [] = none
after_link_text (c ∷ s) =
    if eqb c 60 then none else do from ← from_byte 60 s; after_literal (lit "</a>") from

-- The regular expression of `replaceMatrixMentionHTML`: what follows the link, if one stands first.
unfoldable pub after_mention : Text → Text → Option Text
after_mention matrix_user_id s = do
  a ← after_literal (lit "<a") s
  b ← after_spaces a
  c ← after_literal (lit "href=") b
  d ← after_quote_mark c
  e ← after_literal (lit "https://matrix.to/#/" ++ matrix_user_id) d
  f ← after_quote_mark e
  g ← after_byte 62 f
  after_link_text g

-- `ReplaceAllString` of `replaceMatrixMentionHTML`, from left to right; the number is that of the bytes
-- that the last link still has. No Mattermost username has a dollar sign, which would be expanded.
unfoldable pub replace_matrix_mention_html : Text → Text → ℕ → Text → Text
replace_matrix_mention_html matrix_user_id username skip [] = []
replace_matrix_mention_html matrix_user_id username (suc skip) (c ∷ s) =
    replace_matrix_mention_html matrix_user_id username skip s
replace_matrix_mention_html matrix_user_id username zero (c ∷ s) =
    elim (after_mention matrix_user_id (c ∷ s)) [
      | none ↦ c ∷ replace_matrix_mention_html matrix_user_id username zero s
      | some rest ↦
          lit "@"
          ++ username
          ++ replace_matrix_mention_html matrix_user_id username (length s - length rest) s
    ]

-- `\n{3}` by two newlines, of `cleanupMarkdown`; the number is that of the newlines just read
unfoldable pub squeeze : ℕ → Text → Text
squeeze n [] = []
squeeze n (c ∷ s) =
    let next = squeeze (suc n) s in
    let other = squeeze 0 s in if eqb c 10 then (if leb 2 n then next else c ∷ next) else c ∷ other
