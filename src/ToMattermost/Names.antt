-- ===== src/ToMattermost/Names.antt =====
-- server/sync_to_mattermost.go and server/matrix_util.go: the names of the Mattermost users that stand
-- for Matrix users. Texts are UTF-8, so that a rune may take several bytes.
pub mod Free
use mattermost_plugin_matrix.Prelude.{
  ℕ, zero, suc, ◌+◌, ◌-◌, ◌/◌, ◌%◌, Bool, true, false, ◌&&◌, ◌||◌, not, Option, none, some, List,
  [], ◌∷◌, ◌++◌, take, drop, leb, ltb, eqb, if◌then◌else◌, Text, ◌==◌, lit, has_prefix, index_byte,
}
use mattermost_plugin_matrix.Mattermost.{MattermostServer}
use mattermost_plugin_matrix.Content.Spaces.{within, fields}

-- `extractUsernameFromMatrixUserID`: what stands between the @ and the first colon
unfoldable pub extract_username_from_matrix_user_id : Text → Text
extract_username_from_matrix_user_id user_id =
    if not (has_prefix user_id (lit "@")) then [] else elim (index_byte (drop 1 user_id) 58) [
      | none ↦ drop 1 user_id
      | some i ↦ take i (drop 1 user_id)
    ]

-- the class of the regular expression `[a-z0-9\-_]`
abbrev pub is_username_byte : ℕ → Bool
is_username_byte c = within 97 122 c || within 48 57 c || eqb c 45 || eqb c 95

-- a byte that continues a rune
abbrev pub is_continuation : Text → Bool
is_continuation [] = false
is_continuation (c ∷ s) = within 128 191 c

-- If the first byte is at least the given one.
abbrev pub starts_from : ℕ → Text → Bool
starts_from low [] = false
starts_from low (c ∷ s) = leb low c

-- How many bytes follow the first one of a rune; an invalid byte stands for itself.
unfoldable pub rune_tail : ℕ → Text → ℕ
rune_tail c s =
    if within 194 223 c && is_continuation s
    then 1
    else if within 224 239 c
        && is_continuation s
        && is_continuation (drop 1 s)
        && not (eqb c 224 && not (starts_from 160 s))
        && not (eqb c 237 && starts_from 160 s)
    then 2
    else if within 240 244 c
        && is_continuation s
        && is_continuation (drop 1 s)
        && is_continuation (drop 2 s)
        && not (eqb c 240 && not (starts_from 144 s))
        && not (eqb c 244 && starts_from 144 s)
    then 3
    else 0

-- `strings.ToLower` on a byte
abbrev pub lower_byte : ℕ → ℕ
lower_byte c = if within 65 90 c then c + 32 else c

-- the rune in lower case, with an underscore for one that the regular expression matches. The only
-- two runes above 127 with a lower case below it are the dotted I and the sign for Kelvin.
unfoldable pub sanitized_rune : ℕ → Text → ℕ
unfolding has_prefix
sanitized_rune c s =
    if leb 128 c
    then if eqb c 196 && has_prefix s (176 ∷ [])
      then 105
      else if eqb c 226 && has_prefix s (132 ∷ 170 ∷ [])
      then 107
      else 95
    else if is_username_byte (lower_byte c)
    then lower_byte c
    else 95

-- `strings.ToLower` and `ReplaceAllString` of `generateMattermostUsername`; the number is that of the
-- bytes that the last rune still has
unfoldable pub sanitized : ℕ → Text → Text
sanitized skip [] = []
sanitized (suc skip) (c ∷ s) = sanitized skip s
sanitized zero (c ∷ s) = sanitized_rune c s ∷ sanitized (rune_tail c s) s

-- `%d`, on fuel for the digits
unfoldable pub digits : ℕ → ℕ → Text
digits zero n = []
digits (suc fuel) n =
    let front = digits fuel (n / 10) in
    if ltb n 10 then (48 + n) ∷ [] else front ++ (48 + n % 10) ∷ []

-- No counter of the program has more than four digits.
unfoldable pub decimal : ℕ → Text
decimal n = digits 4 n

-- `GetMatrixUsernamePrefix` (server/configuration.go)
unfoldable pub get_matrix_username_prefix : Text → Text
get_matrix_username_prefix [] = lit "matrix"
get_matrix_username_prefix (c ∷ s) = c ∷ s

-- the name that is tried after `counter - 1` others
unfoldable pub numbered : Text → ℕ → Text
numbered original zero = original
numbered original (suc n) = original ++ lit "_" ++ decimal (suc n)

-- the name for when a thousand are taken
unfoldable pub fallback_username : Text → Text
fallback_username prefix = prefix ++ lit ":user_" ++ decimal 1001

module _ {S : Type 0} (mm : MattermostServer S) where
  -- the loop of `generateMattermostUsername`: `left` names may still be tried, which is 1000 less
  -- the names tried so far
  unfoldable pub first_free : ℕ → Text → Text → S → Text
  first_free zero prefix original s = fallback_username prefix
  first_free (suc left) prefix original s =
      elim (mm.get_user_by_username (numbered original (999 - left)) s) [
        | none ↦ numbered original (999 - left)
        | some user ↦ first_free left prefix original s
      ]

  -- `generateMattermostUsername`
  unfoldable pub generate_mattermost_username : Text → Text → S → Text
  generate_mattermost_username username_prefix base s =
      let prefix = get_matrix_username_prefix username_prefix in
      first_free 1000 prefix (prefix ++ lit ":" ++ sanitized 0 base) s

-- `strings.Join`, with blanks
abbrev pub join : List Text → Text
join [] = []
join (word ∷ []) = word
join (word ∷ other ∷ words) = word ++ lit " " ++ join (other ∷ words)

-- `parseDisplayName`. Trimming the name first does not change its fields.
unfoldable pub parse_display_name : Text → Text × Text
parse_display_name display_name = elim (fields 0 [] display_name) [
  | [] ↦ ([], [])
  | first ∷ rest ↦ (first, join rest)
]
