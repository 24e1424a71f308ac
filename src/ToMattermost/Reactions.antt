-- ===== src/ToMattermost/Reactions.antt =====
-- server/sync_to_mattermost.go: reactions and their removal. The conversion of the emoji name is that of
-- ToMattermost/Emoji for the tables, and the JSON of what is stored of a reaction is a parameter.
pub mod RoundTrip
mod Tests
use mattermost_plugin_matrix.Prelude.{
  ℕ, ◌≡◌, Bool, true, false, not, Option, none, some, List, [], ◌∷◌, if◌then◌else◌, Text, ◌==◌, lit,
}
use mattermost_plugin_matrix.Event.{MatrixEvent, Fields, text_at, object_at, or_empty}
use mattermost_plugin_matrix.Store.{KvStore, or_same, build_matrix_reaction_key}
use mattermost_plugin_matrix.Mapping.{Bridge}
use mattermost_plugin_matrix.Mattermost.{MattermostServer, Reaction}
use mattermost_plugin_matrix.ToMattermost.{
  SyncClient, Settings, Outcome, done, failed, get_post_id_from_matrix_event,
  get_post_id_from_related_matrix_event,
}
use mattermost_plugin_matrix.ToMattermost.Users.{get_or_create_mattermost_user}

-- `reactionInfo`
pub record ReactionInfo : Type 0 where
  pub post_id : Text
  pub user_id : Text
  pub emoji_name : Text

-- `json.Marshal` and `json.Unmarshal` on it; none is an error
pub record Codec : Type 0 where
  pub marshal : ReactionInfo → Text
  pub unmarshal : Text → Option ReactionInfo
  pub unmarshal-marshal : (info : ReactionInfo) → unmarshal (marshal info) ≡ some info

-- the reaction that is added
unfoldable pub reaction_of : Settings → MatrixEvent → ReactionInfo → Reaction
reaction_of settings event info = record {
  user_id = info.user_id;
  post_id = info.post_id;
  emoji_name = info.emoji_name;
  create_at = event.timestamp;
  remote_id = settings.remote_id;
}

-- the reaction that is removed
unfoldable pub removal_of : ReactionInfo → Reaction
removal_of info = record {
  user_id = info.user_id;
  post_id = info.post_id;
  emoji_name = info.emoji_name;
  create_at = 0;
  remote_id = [];
}

module _ {S : Type 0} (kv : KvStore S) (mm : MattermostServer S) (client : SyncClient)
    (settings : Settings) (codec : Codec) (emoji_name_of : Text → Text) where
  -- the post of the target: its own or, for a file, that of the primary message
  unfoldable pub target_post : ℕ → Text → Text → Bridge S → Bridge S × Text
  target_post now target channel b =
      let (found, post_id) = get_post_id_from_matrix_event kv client now target channel b in
      if not (post_id == [])
      then (found, post_id)
      else get_post_id_from_related_matrix_event kv client now target channel found

  -- the end of `syncMatrixReactionToMattermost`: the reaction is added and what was added is stored
  unfoldable pub add_and_store : MatrixEvent → ReactionInfo → Bridge S → Bridge S × Outcome
  add_and_store event info b = elim (mm.add_reaction (reaction_of settings event info) b.store) [
    | none ↦ (b, failed)
    | some added ↦ (
      record b {
        store =
            or_same added
              (kv.set (build_matrix_reaction_key event.event_id) (codec.marshal info) added);
      },
      done,
    )
  ]

  -- the middle of it: the post and the user
  unfoldable pub react_to : ℕ → MatrixEvent → Text → Text → Text → Bridge S → Bridge S × Outcome
  react_to now event channel target key b =
      let (found, post_id) = target_post now target channel b in
      if post_id == []
      then (found, done)
      else let (ready, user) =
          get_or_create_mattermost_user kv mm (some client) settings event.sender channel
            found.store in
        elim user [
          | none ↦ (record found { store = ready }, failed)
          | some user_id ↦
              add_and_store event
                (record { post_id = post_id; user_id = user_id; emoji_name = emoji_name_of key })
                (record found { store = ready })
        ]

  -- `syncMatrixReactionToMattermost`
  unfoldable pub sync_matrix_reaction_to_mattermost :
      ℕ → MatrixEvent → Text → Bridge S → Bridge S × Outcome
  sync_matrix_reaction_to_mattermost now event channel b =
      elim (object_at (lit "m.relates_to") event.content) [
        | none ↦ (b, failed)
        | some relates_to ↦ elim (text_at (lit "key") relates_to) [
          | none ↦ (b, failed)
          | some key ↦ elim (text_at (lit "event_id") relates_to) [
            | none ↦ (b, failed)
            | some target ↦ react_to now event channel target key b
          ]
        ]
      ]

  -- the end of `handleReactionDeletion`, once the stored text is read
  unfoldable pub remove_stored : Text → Text → Bridge S → Bridge S × Outcome
  remove_stored event_id stored b =
      let key = build_matrix_reaction_key event_id in
      elim (codec.unmarshal stored) [
        | none ↦ (record b { store = or_same b.store (kv.delete key b.store) }, done)
        | some info ↦ elim (mm.remove_reaction (removal_of info) b.store) [
          | none ↦ (b, failed)
          | some removed ↦ (record b { store = or_same removed (kv.delete key removed) }, done)
        ]
      ]

  -- `handleReactionDeletion`
  unfoldable pub handle_reaction_deletion : Fields → Bridge S → Bridge S × Outcome
  handle_reaction_deletion redacted_event b = elim (text_at (lit "event_id") redacted_event) [
    | none ↦ (b, failed)
    | some event_id ↦ elim (kv.get (build_matrix_reaction_key event_id) b.store) [
      | none ↦ (b, done)
      | some stored ↦ remove_stored event_id stored b
    ]
  ]
