-- ===== src/ToMatrix/Mentions.antt =====
-- server/sync_to_matrix.go: the users that a post mentions, and their names in the text for Matrix. The
-- two regular expressions are functions on bytes. `name_length` is the length of the letters, digits and
-- underscores, in the sense of package unicode, that a text begins with.
use mattermost_plugin_matrix.Prelude.{
  ℕ, zero, suc, Bool, true, false, ◌&&◌, ◌||◌, not, leb, eqb, Option, none, some, List, [], ◌∷◌,
  ◌++◌, length, take, drop, map, if◌then◌else◌, Text, ◌==◌, lit, has_prefix,
}
use mattermost_plugin_matrix.Event.{or_empty}
use mattermost_plugin_matrix.Store.{KvStore}
use mattermost_plugin_matrix.Mattermost.{MattermostServer, User}
use mattermost_plugin_matrix.ToMatrix.{MatrixServer, MatrixBridge, MatrixSettings}
use mattermost_plugin_matrix.ToMatrix.Users.{
  get_ghost_user, create_or_get_ghost_user, get_matrix_user_id_from_mattermost_user,
}

-- `[0-9A-Za-z_]`, the bytes of words for `\b` and `\B`
abbrev pub is_word : ℕ → Bool
is_word c = (leb 48 c && leb c 57) || (leb 65 c && leb c 90) || (leb 97 c && leb c 122) || eqb c 95

-- `[a-zA-Z0-9\.\-_:]`
abbrev pub is_name_byte : ℕ → Bool
is_name_byte c = is_word c || eqb c 46 || eqb c 45 || eqb c 58

-- If a text begins with a byte of a word.
abbrev pub starts_word : Text → Bool
starts_word [] = false
starts_word (c ∷ s) = is_word c

-- `([a-zA-Z0-9\.\-_:]+)\b`: the longest name at the start of a text that ends where a word does; the
-- empty text if there is none
unfoldable pub name_at : Text → Text
name_at [] = []
name_at (c ∷ s) =
    let rest = name_at s in
    if not (is_name_byte c)
    then []
    else if not (rest == [])
    then c ∷ rest
    else if is_word c
    then c ∷ []
    else []

-- `FindAllStringSubmatch` for `\B@([a-zA-Z0-9\.\-_:]+)\b`, after a byte that is of a word or not
unfoldable pub names_in : Bool → Text → List Text
names_in after_word [] = []
names_in after_word (c ∷ s) =
    let rest = names_in (is_word c) s in
    if eqb c 64 && not after_word && not (name_at s == []) then name_at s ∷ rest else rest

-- `MattermostMentionResults`
pub record MentionResults : Type 0 where
  pub user_mentions : List Text
  pub channel_mentions : Bool

-- the mentions of a whole channel
unfoldable pub is_channel_mention : Text → Bool
is_channel_mention name = name == lit "here" || name == lit "channel" || name == lit "all"

-- the loop of `extractMattermostMentions`
unfoldable pub sort_mentions : List Text → MentionResults
sort_mentions [] = record { user_mentions = []; channel_mentions = false }
sort_mentions (name ∷ names) =
    let rest = sort_mentions names in
    if is_channel_mention name
    then record rest { channel_mentions = true }
    else record rest { user_mentions = name ∷ rest.user_mentions }

-- `extractMattermostMentions`
unfoldable pub extract_mattermost_mentions : Text → MentionResults
extract_mattermost_mentions message = sort_mentions (names_in false message)

-- The last byte of a text is of a word.
abbrev ends_word : Text → Bool
ends_word [] = false
ends_word (c ∷ []) = is_word c
ends_word (c ∷ s) = ends_word s

-- If a text begins with the mention of a name: `@name\b`.
unfoldable pub mentions_at : Text → Text → Bool
mentions_at name s =
    let rest = drop (suc (length name)) s in
    has_prefix s (lit "@" ++ name)
    && (if ends_word (lit "@" ++ name) then not (starts_word rest) else starts_word rest)

-- `ReplaceAllString` for `\B@name\b`, where the first argument counts the bytes of a match that are
-- left out.
unfoldable pub replace_all : ℕ → Bool → Text → Text → Text → Text
replace_all skip after_word name pill [] = []
replace_all (suc skip) after_word name pill (c ∷ s) = replace_all skip (is_word c) name pill s
replace_all zero after_word name pill (c ∷ s) =
    let matched = replace_all (length name) (is_word c) name pill s in
    let rest = replace_all zero (is_word c) name pill s in
    if not after_word && mentions_at name (c ∷ s) then pill ++ matched else c ∷ rest

-- the Matrix user for a mention, with the name to show
pub record Replacement : Type 0 where
  pub username : Text
  pub matrix_user_id : Text
  pub display_name : Text

-- the link to a user
unfoldable pub mention_pill : Replacement → Text
mention_pill r =
    lit "<a href=\"https://matrix.to/#/"
    ++ r.matrix_user_id
    ++ lit "\">@"
    ++ r.display_name
    ++ lit "</a>"

-- The body of a message with what addMatrixMentionsWithData adds to it.
pub record MessageContent : Type 0 where
  pub body : Text
  pub formatted_body : Option Text
  pub mentions : List Text

module _ (name_length : Text → ℕ) where
  -- what a `$` of a template names, with the bytes that it takes: `name` or `{name}`
  unfoldable pub group_at : Text → Option (Text × ℕ)
  group_at [] = none
  group_at (c ∷ s) =
      let brace = eqb c 123 in
      let inner = if brace then s else c ∷ s in
      let n = name_length inner in
      if eqb n 0
      then none
      else if not brace
      then some (take n inner, n)
      else if has_prefix (drop n inner) (lit "}")
      then some (take n inner, suc (suc n))
      else none

  -- `Expand` of package regexp for a pattern that has no groups, so that 0 is the match and any other
  -- name is empty; the first argument counts the bytes that are left out
  unfoldable pub expand : ℕ → Text → Text → Text
  expand skip match [] = []
  expand (suc skip) match (c ∷ s) = expand skip match s
  expand zero match (c ∷ s) =
      let rest = expand zero match s in
      let after_dollar = expand 1 match s in
      let group = group_at s in
      let after_group = expand (elim group [ none ↦ 0 | some (name, n) ↦ n ]) match s in
      if not (eqb c 36)
      then c ∷ rest
      else if has_prefix s (lit "$")
      then c ∷ after_dollar
      else elim group [
        | none ↦ c ∷ rest
        | some (name, n) ↦ (if name == lit "0" then match else []) ++ after_group
      ]

  -- the second pass of `addMatrixMentionsWithData`
  unfoldable pub replace_names : List Replacement → Text → Text
  replace_names [] html = html
  replace_names (r ∷ rs) html =
      replace_names rs
        (replace_all 0 false r.username (expand 0 (lit "@" ++ r.username) (mention_pill r)) html)

  -- the end of `addMatrixMentionsWithData`
  unfoldable pub with_mentions : List Replacement → MessageContent → MessageContent
  with_mentions [] content = content
  with_mentions (r ∷ rs) content = record content {
    formatted_body = some (
        replace_names (r ∷ rs)
          (elim content.formatted_body [ none ↦ content.body | some html ↦ html ]));
    mentions = map (λ x. x.matrix_user_id) (r ∷ rs);
  }

module _ {S : Type 0} (kv : KvStore S) (mm : MattermostServer S) (mx : MatrixServer S)
    (settings : MatrixSettings) where
  -- the Matrix user for a user that is mentioned, which may be made
  unfoldable pub mentioned_user : ℕ → User → MatrixBridge S → MatrixBridge S × Option Text
  mentioned_user now user b =
      let (looked, ghost) = get_ghost_user kv mm mx settings now user.id b in
      elim ghost [
        | some id ↦ (looked, some id)
        | none ↦
            let original = or_empty (
              get_matrix_user_id_from_mattermost_user kv mm mx settings user.id
                looked.bridge.store) in
            if not (original == [])
            then (looked, some original)
            else create_or_get_ghost_user kv mm mx settings now user.id looked
      ]

  -- `displayName`, or the name of the user if there is none
  unfoldable pub shown_name : User → Text
  shown_name user =
      if settings.display_name_of user == [] then user.username else settings.display_name_of user

  -- one round of the first pass of `addMatrixMentionsWithData`
  unfoldable pub collect_mention : ℕ → Text → MatrixBridge S → MatrixBridge S × List Replacement
  collect_mention now username b = elim (mm.get_user_by_username username b.bridge.store) [
    | none ↦ (b, [])
    | some user ↦
        let (after, id) = mentioned_user now user b in
        elim id [
          | none ↦ (after, [])
          | some matrix_user_id ↦ (
            after,
            (record {
              username = username;
              matrix_user_id = matrix_user_id;
              display_name = shown_name user;
            })
                ∷ [],
          )
        ]
  ]

  -- the first pass of `addMatrixMentionsWithData`
  unfoldable pub collect_mentions :
      ℕ → List Text → MatrixBridge S → MatrixBridge S × List Replacement
  collect_mentions now [] b = (b, [])
  collect_mentions now (username ∷ usernames) b =
      let (after, found) = collect_mention now username b in
      let (last, others) = collect_mentions now usernames after in (last, found ++ others)

  -- `addMatrixMentionsWithData`
  unfoldable pub add_matrix_mentions_with_data :
      (Text → ℕ)
      → ℕ
      → MentionResults
      → MessageContent
      → MatrixBridge S
      → MatrixBridge S × MessageContent
  add_matrix_mentions_with_data name_length now mentions content b =
      let (after, found) = collect_mentions now mentions.user_mentions b in
      (after, with_mentions name_length found content)
