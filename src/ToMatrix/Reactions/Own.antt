-- ===== src/ToMatrix/Reactions/Own.antt =====
-- Which reaction is taken back (server/sync_to_matrix.go).
use mattermost_plugin_matrix.Prelude.{
  ◌≡◌, ◌∙◌, ap, ◌⊎◌, inl, inr, refl, true, false, Option, none, some, Option-cases, Bool-cases,
  List, [], ◌∷◌, Any, Text, ◌==◌, lit, eq_iff, eq_refl, arith,
}
use mattermost_plugin_matrix.Event.{Fields, text_at, object_at, or_empty}
use mattermost_plugin_matrix.Store.{KvStore}
use mattermost_plugin_matrix.Mapping.{MatrixClient}
use mattermost_plugin_matrix.Mattermost.{MattermostServer}
use mattermost_plugin_matrix.ToMatrix.{MatrixServer, MatrixBridge, MatrixSettings}
use mattermost_plugin_matrix.ToMatrix.Reactions.{is_reaction_of, find_reaction, redact_reaction}

-- An event with an identifier, which is the reaction of a ghost user with an emoji: its fields, one by
-- one.
pub record IsOwn (ghost emoji id : Text) (event : Fields) : Type 0 where
  pub kind : text_at (lit "type") event ≡ some (lit "m.reaction")
  pub sender : text_at (lit "sender") event ≡ some ghost
  pub event_id : text_at (lit "event_id") event ≡ some id
  pub content : Fields
  pub holds_content : object_at (lit "content") event ≡ some content
  pub relation : Fields
  pub holds_relation : object_at (lit "m.relates_to") content ≡ some relation
  pub key : text_at (lit "key") relation ≡ some emoji

some_text : (o : Option Text) (s : Text) → (or_empty o == s) ≡ true → (s == []) ≡ false → o ≡ some s
some_text none s h filled = absurd (ground (arith, eq_iff [] s, eq_refl s))
some_text (some t) s h filled = ground (arith, eq_iff t s)

is_reaction_of-IsOwn :
    (ghost emoji id : Text) (event : Fields)
    → is_reaction_of ghost emoji event ≡ true
    → text_at (lit "event_id") event ≡ some id
    → IsOwn ghost emoji id event
unfolding is_reaction_of ◌==◌
is_reaction_of-IsOwn ghost emoji id event =
    elim (Bool-cases (or_empty (text_at (lit "type") event) == lit "m.reaction")) [
      | inr other ↦ rw other (λ h. absurd (ground arith))
      | inl typed ↦ rw typed (elim (Option-cases (text_at (lit "sender") event)) [
        | inl e ↦ rw (e, is_reaction_of) (λ h. absurd (ground arith))
        | inr (sender, e) ↦
            rw (e, is_reaction_of)
              (elim (Bool-cases (sender == ghost)) [
                | inr other ↦ rw other (λ h. absurd (ground arith))
                | inl sent ↦ rw sent (elim (Option-cases (object_at (lit "content") event)) [
                  | inl f ↦ rw (f, is_reaction_of) (λ h. absurd (ground arith))
                  | inr (content, f) ↦
                      rw (f, is_reaction_of)
                        (elim (Option-cases (object_at (lit "m.relates_to") content)) [
                          | inl g ↦ rw (g, is_reaction_of) (λ h. absurd (ground arith))
                          | inr (relation, g) ↦
                              rw (g, is_reaction_of)
                                (elim (Option-cases (text_at (lit "key") relation)) [
                                  | inl k ↦ rw (k, is_reaction_of) (λ h. absurd (ground arith))
                                  | inr (key, k) ↦
                                      rw (k, is_reaction_of)
                                        (λ h named. record {
                                          kind = some_text _ (lit "m.reaction") typed refl;
                                          sender = e ∙ ap some ((eq_iff sender ghost).0 sent);
                                          event_id = named;
                                          content = content;
                                          holds_content = f;
                                          relation = relation;
                                          holds_relation = g;
                                          key = k ∙ ap some ((eq_iff key emoji).0 h);
                                        })
                                ])
                        ])
                ])
              ])
      ])
    ]

find_reaction-IsOwn :
    (ghost emoji id : Text) (events : List Fields)
    → find_reaction ghost emoji events ≡ some id
    → Any (IsOwn ghost emoji id) events
unfolding find_reaction
find_reaction-IsOwn ghost emoji id [] = λ h. absurd (ground arith)
find_reaction-IsOwn ghost emoji id (event ∷ events) =
    elim (Bool-cases (is_reaction_of ghost emoji event)) [
      | inr other ↦ rw other (λ h. inr (find_reaction-IsOwn ghost emoji id events h))
      | inl own ↦ rw own (elim (Option-cases (text_at (lit "event_id") event)) [
        | inl e ↦ rw (e, find_reaction) (λ h. inr (find_reaction-IsOwn ghost emoji id events h))
        | inr (named, e) ↦
            rw (e, find_reaction)
              (λ h.
                let same : named ≡ id = ground arith in
                inl (is_reaction_of-IsOwn ghost emoji id event own (e ∙ ap some same)))
      ])
    ]

module _ {S : Type 0} (kv : KvStore S) (mm : MattermostServer S) (mx : MatrixServer S)
    (rooms : MatrixClient) (settings : MatrixSettings) (emoji_for : Text → Text) where
  -- Taking a reaction back either changes nothing, or redacts one event: one among the related events
  -- that the Matrix server gave, whose type is that of a reaction, whose sender is the ghost user, and
  -- whose content relates to the post with the emoji as its key. No reaction of another sender is
  -- redacted.
  pub redact_reaction-IsOwn :
      (ghost room emoji : Text) (relations : List Fields) (b : MatrixBridge S)
      → ((redact_reaction kv mm mx rooms settings emoji_for ghost room emoji relations b).0 ≡ b)
        ⊎ ((id : Text) × Any (IsOwn ghost emoji id) relations
            × (mx.redact room id ghost b.bridge.store
                ≡ some
                    (redact_reaction kv mm mx rooms settings emoji_for ghost room emoji relations
                      b).0.bridge.store))
  unfolding redact_reaction
  redact_reaction-IsOwn ghost room emoji relations b =
      elim (Option-cases (find_reaction ghost emoji relations)) [
        | inl e ↦ inl (rw (e, redact_reaction) refl)
        | inr (id, e) ↦ elim (Bool-cases (id == [])) [
          | inl f ↦ inl (rw (e, redact_reaction) (rw f refl))
          | inr f ↦ elim (Option-cases (mx.redact room id ghost b.bridge.store)) [
            | inl g ↦ inl (rw (e, redact_reaction) (rw f (rw (g, redact_reaction) refl)))
            | inr (after, g) ↦ inr (
              id,
              find_reaction-IsOwn ghost emoji id relations e,
              rw (e, redact_reaction) (rw f (rw (g, redact_reaction) refl)),
            )
          ]
        ]
      ]
