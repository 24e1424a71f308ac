-- ===== src/ToMattermost/Messages/Errors.antt =====
-- What the handlers of messages (server/sync_to_mattermost.go) leave behind when they return an error.
use mattermost_plugin_matrix.Prelude.{
  ℕ, ◌≡◌, refl, ◌∙◌, ap, Option, some, Option-cases, Bool-cases, inl, inr, [], Text, ◌==◌, lit,
  arith,
}
use mattermost_plugin_matrix.Event.{MatrixEvent, text_at, object_at}
use mattermost_plugin_matrix.Store.{KvStore, IsKvStore}
use mattermost_plugin_matrix.Mapping.{Bridge}
use mattermost_plugin_matrix.Mattermost.{MattermostServer, IsMattermost, Post, KeepsPosts}
use mattermost_plugin_matrix.Content.{is_edit, extract_matrix_message_content}
use mattermost_plugin_matrix.ToMattermost.{
  SyncClient, Settings, Outcome, done, failed, get_post_id_from_matrix_event,
}
use mattermost_plugin_matrix.ToMattermost.Lookups.{get_post_id-store}
use mattermost_plugin_matrix.ToMattermost.Users.{get_or_create_mattermost_user}
use mattermost_plugin_matrix.ToMattermost.Users.Keeps.{get_or_create_mattermost_user-Calm}
use mattermost_plugin_matrix.ToMattermost.Messages.Roots.{thread_root-store, file_root-store}
use mattermost_plugin_matrix.ToMattermost.Messages.{
  is_file, is_our_own, thread_root, create_and_map, edit_post, handle_matrix_message_edit,
  file_root, post_file, sync_matrix_file_to_mattermost, sync_new_message,
  sync_matrix_message_to_mattermost,
}

-- An outcome is not both.
done-failed : {A : Type 0} → done ≡ failed → A
done-failed h = absurd (ground arith)

module _ {S : Type 0} (kv : KvStore S) (stored : IsKvStore kv) (mm : MattermostServer S)
    (laws : IsMattermost kv stored.contents mm) (client : SyncClient) (settings : Settings)
    (converter : Text → Option Text) where
  -- If a step returns an error, no post that was there has changed.
  abbrev Harmless : Bridge S → Bridge S × Outcome → Type 0
  Harmless b result = result.1 ≡ failed → KeepsPosts mm b.store result.0.store

  same-Harmless : (b after : Bridge S) (o : Outcome) → after.store ≡ b.store → Harmless b (after, o)
  same-Harmless b after o same h id post there = ap (mm.get_post id) same ∙ there

  after-Harmless :
      (s t u : S) (o : Outcome)
      → KeepsPosts mm s t
      → (o ≡ failed → KeepsPosts mm t u)
      → o ≡ failed
      → KeepsPosts mm s u
  after-Harmless s t u o same step h id post there = step h id post (same id post there)

  create_and_map-Harmless :
      (post : Post) (event_id : Text) (b : Bridge S)
      → Harmless b (create_and_map kv mm client settings converter post event_id b)
  unfolding create_and_map
  create_and_map-Harmless post event_id b = elim (Option-cases (mm.create_post post b.store)) [
    | inl e ↦ rw (e, create_and_map) (same-Harmless b b failed refl)
    | inr ((created, id), e) ↦ rw (e, create_and_map) (λ h. done-failed h)
  ]

  edit_post-Harmless :
      (timestamp : ℕ) (message post_id : Text) (b : Bridge S)
      → Harmless b (edit_post kv mm client settings converter timestamp message post_id b)
  unfolding edit_post
  edit_post-Harmless timestamp message post_id b = elim (Bool-cases (post_id == [])) [
    | inl e ↦ rw e (λ h. done-failed h)
    | inr e ↦ rw e (elim (Option-cases (mm.get_post post_id b.store)) [
      | inl f ↦ rw (f, edit_post) (same-Harmless b b failed refl)
      | inr (post, f) ↦
          rw (f, edit_post)
            (elim (Option-cases
              (mm.update_post (record post { message = message; edit_at = timestamp }) b.store)) [
                | inl g ↦ rw (g, edit_post) (same-Harmless b b failed refl)
                | inr (after, g) ↦ rw (g, edit_post) (λ h. done-failed h)
              ])
    ])
  ]

  handle_matrix_message_edit-Harmless :
      (now : ℕ) (event : MatrixEvent) (channel : Text) (b : Bridge S)
      → Harmless b (handle_matrix_message_edit kv mm client settings converter now event channel b)
  unfolding handle_matrix_message_edit
  handle_matrix_message_edit-Harmless now event channel b =
      elim (Option-cases (object_at (lit "m.relates_to") event.content)) [
        | inl e ↦ rw (e, handle_matrix_message_edit) (same-Harmless b b failed refl)
        | inr (r, e) ↦
            rw (e, handle_matrix_message_edit)
              (elim (Option-cases (text_at (lit "event_id") r)) [
                | inl f ↦ rw (f, handle_matrix_message_edit) (same-Harmless b b failed refl)
                | inr (original, f) ↦
                    let found = get_post_id_from_matrix_event kv client now original channel b in
                    rw (f, handle_matrix_message_edit)
                      (after-Harmless b.store found.0.store _ _
                        (λ id post there.
                          ap (mm.get_post id) (get_post_id-store kv client now original channel b)
                          ∙ there)
                        (edit_post-Harmless event.timestamp _ found.1 found.0))
              ])
      ]

  sync_new_message-Harmless :
      (now : ℕ) (event : MatrixEvent) (channel : Text) (b : Bridge S)
      → Harmless b (sync_new_message kv mm client settings converter now event channel b)
  unfolding sync_new_message
  sync_new_message-Harmless now event channel b =
      let content = extract_matrix_message_content kv mm converter event.content b.store in
      let got =
        get_or_create_mattermost_user kv mm (some client) settings event.sender channel b.store in
      let ready = record b { store = got.0 } in
      let calm =
        (get_or_create_mattermost_user-Calm kv stored mm laws (some client) settings event.sender
          channel b.store).posts in
      elim (Bool-cases (content == [])) [
        | inl e ↦ rw e (λ h. done-failed h)
        | inr e ↦ rw e (elim (Option-cases got.1) [
          | inl f ↦ rw (f, sync_new_message) (λ h. calm)
          | inr (user, f) ↦
              let rooted =
                thread_root kv mm client settings converter now event.content channel ready in
              rw (f, sync_new_message)
                (after-Harmless b.store ready.store _ _ calm (
                  after-Harmless ready.store rooted.0.store _ _
                    (λ id post there.
                      ap (mm.get_post id) (
                        thread_root-store kv mm client settings converter now event.content channel
                          ready)
                      ∙ there)
                    (create_and_map-Harmless _ event.event_id rooted.0)))
        ])
      ]

  post_file-Harmless :
      (now : ℕ) (event : MatrixEvent) (channel body url user : Text) (b : Bridge S)
      → Harmless b (post_file kv mm client settings converter now event channel body url user b)
  unfolding post_file
  post_file-Harmless now event channel body url user b =
      elim (Option-cases (client.download_file url)) [
        | inl e ↦ rw (e, post_file) (same-Harmless b b failed refl)
        | inr (content, e) ↦
            rw (e, post_file)
              (elim (Option-cases (mm.upload_file content channel body b.store)) [
                | inl f ↦ rw (f, post_file) (same-Harmless b b failed refl)
                | inr ((uploaded, id), f) ↦
                    let next = record b { store = uploaded } in
                    let rooted =
                      file_root kv mm client settings converter now event.content channel next in
                    rw (f, post_file)
                      (after-Harmless b.store next.store _ _
                        (laws.upload_file_law content channel body id b.store uploaded f)
                        (after-Harmless next.store rooted.0.store _ _
                          (λ j post there.
                            ap (mm.get_post j) (
                              file_root-store kv mm client settings converter now event.content
                                channel next)
                            ∙ there)
                          (create_and_map-Harmless _ event.event_id rooted.0)))
              ])
      ]

  sync_matrix_file-Harmless :
      (now : ℕ) (event : MatrixEvent) (channel : Text) (b : Bridge S)
      → Harmless b
          (sync_matrix_file_to_mattermost kv mm client settings converter now event channel b)
  unfolding sync_matrix_file_to_mattermost
  sync_matrix_file-Harmless now event channel b =
      let got =
        get_or_create_mattermost_user kv mm (some client) settings event.sender channel b.store in
      let ready = record b { store = got.0 } in
      let calm =
        (get_or_create_mattermost_user-Calm kv stored mm laws (some client) settings event.sender
          channel b.store).posts in
      elim (Option-cases (text_at (lit "body") event.content)) [
        | inl e ↦ rw (e, sync_matrix_file_to_mattermost) (λ h. done-failed h)
        | inr (body, e) ↦
            rw (e, sync_matrix_file_to_mattermost)
              (elim (Option-cases (text_at (lit "url") event.content)) [
                | inl f ↦ rw (f, sync_matrix_file_to_mattermost) (λ h. done-failed h)
                | inr (url, f) ↦
                    rw (f, sync_matrix_file_to_mattermost)
                      (elim (Option-cases got.1) [
                        | inl g ↦ rw (g, sync_matrix_file_to_mattermost) (λ h. calm)
                        | inr (user, g) ↦
                            rw (g, sync_matrix_file_to_mattermost)
                              (after-Harmless b.store ready.store _ _ calm
                                (post_file-Harmless now event channel body url user ready))
                      ])
              ])
      ]

  -- If a message, an edit or a file is synchronised with an error, then every post that was there is
  -- still there and unchanged: none was edited or removed, whatever part of the work was done before
  -- the error.
  pub sync_matrix_message_to_mattermost-Harmless :
      (now : ℕ) (event : MatrixEvent) (channel : Text) (b : Bridge S)
      → (sync_matrix_message_to_mattermost kv mm client settings converter now event channel b).1
        ≡ failed
      → KeepsPosts mm b.store
          (sync_matrix_message_to_mattermost kv mm client settings converter now event channel
            b).0.store
  unfolding sync_matrix_message_to_mattermost
  sync_matrix_message_to_mattermost-Harmless now event channel b =
      elim (Bool-cases (is_our_own kv mm client settings converter event b.store)) [
        | inl own ↦ rw own (λ h. done-failed h)
        | inr other ↦ rw other (elim (Bool-cases (is_edit event.content)) [
          | inl edit ↦ rw edit (handle_matrix_message_edit-Harmless now event channel b)
          | inr new ↦ rw new (elim (Bool-cases (is_file event.content)) [
            | inl file ↦ rw file (sync_matrix_file-Harmless now event channel b)
            | inr text ↦ rw text (sync_new_message-Harmless now event channel b)
          ])
        ])
      ]
