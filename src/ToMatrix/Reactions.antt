-- ===== src/ToMatrix/Reactions.antt =====
-- server/sync_to_matrix.go: reactions of Mattermost users, sent and taken back as their ghost users. The
-- tables of emoji are parameters, as in ToMattermost/Emoji.
pub mod Own
use mattermost_plugin_matrix.Prelude.{
  ℕ, ◌≡◌, Bool, true, false, ◌&&◌, not, Option, none, some, List, [], ◌∷◌, ◌++◌, eqb, if◌then◌else◌,
  Text, ◌==◌, lit,
}
use mattermost_plugin_matrix.Event.{Fields, text_at, object_at, or_empty}
use mattermost_plugin_matrix.Store.{KvStore}
use mattermost_plugin_matrix.Mapping.{MatrixClient}
use mattermost_plugin_matrix.Mattermost.{MattermostServer, User, Post, Reaction}
use mattermost_plugin_matrix.ToMattermost.{Outcome, done, failed}
use mattermost_plugin_matrix.ToMattermost.Emoji.{hex_to_unicode}
use mattermost_plugin_matrix.ToMatrix.{
  MatrixServer, MatrixBridge, MatrixSettings, event_id_of, RoomOf, unmapped, unresolved, room,
  room_of,
}
use mattermost_plugin_matrix.ToMatrix.Users.{
  with_store, get_ghost_user, create_or_get_ghost_user, ensure_ghost_user_in_room,
}

-- `strings.Trim(s, ":")`, on the left
unfoldable pub trim_colons : Text → Text
trim_colons [] = []
trim_colons (c ∷ s) = let rest = trim_colons s in if eqb c 58 then rest else c ∷ s

-- If a text is made of colons.
abbrev pub all_colons : Text → Bool
all_colons [] = true
all_colons (c ∷ s) = eqb c 58 && all_colons s

-- `strings.Trim(s, ":")`, on the right
unfoldable pub trim_last_colons : Text → Text
trim_last_colons [] = []
trim_last_colons (c ∷ s) =
    let rest = trim_last_colons s in if all_colons (c ∷ s) then [] else c ∷ rest

-- the emoji as text, where it has no Unicode
abbrev pub as_name : Text → Text
as_name name = lit ":" ++ name ++ lit ":"

-- `convertEmojiForMatrix`
unfoldable pub convert_emoji_for_matrix : (Text → Option ℕ) → (ℕ → Option Text) → Text → Text
convert_emoji_for_matrix index_of unicode_of emoji_name =
    let clean_name = trim_last_colons (trim_colons emoji_name) in
    elim (index_of clean_name) [
      | none ↦ as_name clean_name
      | some index ↦ elim (unicode_of index) [
        | none ↦ as_name clean_name
        | some hex ↦ if hex_to_unicode hex == [] then as_name clean_name else hex_to_unicode hex
      ]
    ]

-- If a related event is the reaction of a ghost user with an emoji.
unfoldable pub is_reaction_of : Text → Text → Fields → Bool
is_reaction_of ghost emoji event =
    or_empty (text_at (lit "type") event) == lit "m.reaction"
    && elim (text_at (lit "sender") event) [ none ↦ false | some sender ↦ sender == ghost ]
    && elim (object_at (lit "content") event) [
      | none ↦ false
      | some content ↦ elim (object_at (lit "m.relates_to") content) [
        | none ↦ false
        | some relates_to ↦ elim (text_at (lit "key") relates_to) [
          | none ↦ false
          | some key ↦ key == emoji
        ]
      ]
    ]

-- the loop of `removeReactionFromMatrix`: the first such event that has an identifier
unfoldable pub find_reaction : Text → Text → List Fields → Option Text
find_reaction ghost emoji [] = none
find_reaction ghost emoji (event ∷ events) =
    let rest = find_reaction ghost emoji events in
    if is_reaction_of ghost emoji event
    then elim (text_at (lit "event_id") event) [ none ↦ rest | some id ↦ some id ]
    else rest

-- `IsRemote` of the Mattermost package
unfoldable pub is_remote : User → Bool
is_remote user = not (user.remote_id == [])

module _ {S : Type 0} (kv : KvStore S) (mm : MattermostServer S) (mx : MatrixServer S)
    (rooms : MatrixClient) (settings : MatrixSettings) (emoji_for : Text → Text) where
  -- the end of `addReactionToMatrix`, for the event of the post and a user
  unfoldable pub send_reaction :
      ℕ → User → Text → Text → Text → MatrixBridge S → MatrixBridge S × Outcome
  send_reaction now user room_id event_id emoji_name b =
      let (got, ghost) = create_or_get_ghost_user kv mm mx settings now user.id b in
      elim ghost [
        | none ↦ (got, failed)
        | some id ↦
            let (joined, outcome) =
              ensure_ghost_user_in_room kv mm mx settings now id room_id user.id got in
            elim outcome [
              | failed ↦ (joined, failed)
              | done ↦
                  elim (mx.send_reaction room_id event_id (emoji_for emoji_name) id
                    joined.bridge.store) [
                      | none ↦ (joined, failed)
                      | some sent ↦ (with_store sent joined, done)
                    ]
            ]
      ]

  -- `addReactionToMatrix`
  unfoldable pub add_reaction_to_matrix :
      ℕ → Reaction → Text → MatrixBridge S → MatrixBridge S × Outcome
  add_reaction_to_matrix now reaction channel b =
      let (found, where_) = room_of kv rooms now channel b in
      elim where_ [
        | unmapped ↦ (found, done)
        | unresolved ↦ (found, failed)
        | room room_id ↦ elim (mm.get_post reaction.post_id found.bridge.store) [
          | none ↦ (found, failed)
          | some post ↦
              if event_id_of settings.hostname post == []
              then (found, done)
              else elim (mm.get_user reaction.user_id found.bridge.store) [
                | none ↦ (found, failed)
                | some user ↦
                    if is_remote user
                    then (found, done)
                    else send_reaction now user room_id (event_id_of settings.hostname post)
                        reaction.emoji_name found
              ]
        ]
      ]

  -- the end of `removeReactionFromMatrix`, for a ghost user and what relates to the event of the post
  unfoldable pub redact_reaction :
      Text → Text → Text → List Fields → MatrixBridge S → MatrixBridge S × Outcome
  redact_reaction ghost room_id emoji relations b = elim (find_reaction ghost emoji relations) [
    | none ↦ (b, done)
    | some event_id ↦
        if event_id == []
        then (b, done)
        else elim (mx.redact room_id event_id ghost b.bridge.store) [
          | none ↦ (b, failed)
          | some redacted ↦ (with_store redacted b, done)
        ]
  ]

  -- `removeReactionFromMatrix`
  unfoldable pub remove_reaction_from_matrix :
      ℕ → Reaction → Text → MatrixBridge S → MatrixBridge S × Outcome
  remove_reaction_from_matrix now reaction channel b =
      let (found, where_) = room_of kv rooms now channel b in
      elim where_ [
        | unmapped ↦ (found, done)
        | unresolved ↦ (found, failed)
        | room room_id ↦ elim (mm.get_post reaction.post_id found.bridge.store) [
          | none ↦ (found, failed)
          | some post ↦
              let event_id = event_id_of settings.hostname post in
              if event_id == []
              then (found, done)
              else elim (mm.get_user reaction.user_id found.bridge.store) [
                | none ↦ (found, failed)
                | some user ↦
                    let (looked, ghost) = get_ghost_user kv mm mx settings now user.id found in
                    elim ghost [
                      | none ↦ (looked, done)
                      | some id ↦ elim (mx.get_relations room_id event_id id looked.bridge.store) [
                        | none ↦ (looked, failed)
                        | some relations ↦
                            redact_reaction id room_id (emoji_for reaction.emoji_name) relations
                              looked
                      ]
                    ]
              ]
        ]
      ]

  -- `SyncReactionToMatrix`; the first argument tells if the reaction was deleted
  unfoldable pub sync_reaction_to_matrix :
      Bool → ℕ → Reaction → Text → MatrixBridge S → MatrixBridge S × Outcome
  sync_reaction_to_matrix deleted now reaction channel b =
      if deleted
      then remove_reaction_from_matrix now reaction channel b
      else add_reaction_to_matrix now reaction channel b
