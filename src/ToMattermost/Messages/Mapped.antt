-- ===== src/ToMattermost/Messages/Mapped.antt =====
-- A message that was synchronised is found again, and its edits change its post
-- (server/sync_to_mattermost.go).
use mattermost_plugin_matrix.Prelude.{
  ℕ, ◌≡◌, ◌≢◌, refl, sym, ◌∙◌, ap, subst, false, Option, some, Option-cases, inl, inr, [], Text,
  ◌==◌, lit, eq_iff, eq_refl, arith,
}
use mattermost_plugin_matrix.Event.{MatrixEvent, Fields, text_at, object_at, or_empty}
use mattermost_plugin_matrix.Store.{KvStore, IsKvStore, IsReliable, build_matrix_event_post_key}
use mattermost_plugin_matrix.Mapping.{Bridge}
use mattermost_plugin_matrix.Mattermost.{MattermostServer, IsMattermost, Post}
use mattermost_plugin_matrix.Content.{extract_matrix_message_content}
use mattermost_plugin_matrix.ToMattermost.{
  SyncClient, Settings, done, get_post_id_from_matrix_event, store_matrix_event_post_mapping,
}
use mattermost_plugin_matrix.ToMattermost.Users.{get_or_create_mattermost_user}
use mattermost_plugin_matrix.ToMattermost.Messages.{
  convert_matrix_to_mattermost, post_of, thread_root, create_and_map, edit_post,
  handle_matrix_message_edit, sync_new_message,
}

module _ {S : Type 0} (kv : KvStore S) (stored : IsKvStore kv) (mm : MattermostServer S) where
  -- The post of an event: the store has it for the event, and it is there.
  pub record IsPostOf (event_id : Text) (post : Post) (s : S) : Type 0 where
    pub named : (post.id == []) ≡ false
    pub mapping : stored.contents (build_matrix_event_post_key event_id) s ≡ post.id
    pub there : mm.get_post post.id s ≡ some post

module _ {S : Type 0} (kv : KvStore S) (stored : IsKvStore kv) (mm : MattermostServer S)
    (laws : IsMattermost kv stored.contents mm) (reliable : IsReliable kv stored.contents)
    (client : SyncClient) (settings : Settings) (converter : Text → Option Text) where
  store-IsPostOf :
      (post : Post) (event_id : Text) (s : S)
      → post.id ≢ []
      → mm.get_post post.id s ≡ some post
      → IsPostOf kv stored mm event_id post
          (store_matrix_event_post_mapping kv client event_id post.id s)
  unfolding store_matrix_event_post_mapping
  store-IsPostOf post event_id s named there =
      let key = build_matrix_event_post_key event_id in
      let (mapped, e) = reliable.writes key post.id s in
      rw e (record {
        named = ground (arith, eq_iff post.id []);
        mapping = ground (arith, stored.contents-set key key post.id s mapped e, eq_refl key);
        there = (laws.set_law key post.id s mapped e).0 post.id post there;
      })

  create_and_map-IsPostOf :
      (post : Post) (event_id : Text) (b after : Bridge S)
      → create_and_map kv mm client settings converter post event_id b ≡ (after, done)
      → (id : Text) × (edit : ℕ) × IsPostOf kv stored mm event_id
          (record post { id = id; edit_at = edit })
          after.store
  unfolding create_and_map
  create_and_map-IsPostOf post event_id b after =
      elim (Option-cases (mm.create_post post b.store)) [
        | inl e ↦ rw (e, create_and_map) (λ h. absurd (ground arith))
        | inr ((created, id), e) ↦
            rw (e, create_and_map)
              (λ h.
                let ((edit, there), named, kept) = laws.create_post_law post id b.store created e in
                (
                  id,
                  edit,
                  subst (IsPostOf kv stored mm event_id (record post { id = id; edit_at = edit }))
                      (ap (λ x. x.0.store) h)
                      (store-IsPostOf (record post { id = id; edit_at = edit }) event_id created
                        named there),
                ))
      ]

  -- An event whose post is known leads to it, whatever the channel is.
  pub get_post_id-IsPostOf :
      (now : ℕ) (event_id channel : Text) (post : Post) (b : Bridge S)
      → IsPostOf kv stored mm event_id post b.store
      → get_post_id_from_matrix_event kv client now event_id channel b ≡ (b, post.id)
  unfolding get_post_id_from_matrix_event
  get_post_id-IsPostOf now event_id channel post b known =
      let key = build_matrix_event_post_key event_id in
      let read : or_empty (kv.get key b.store) ≡ post.id =
        ap or_empty (reliable.reads key b.store) ∙ known.mapping in
      rw read (rw known.named refl)

  -- What a new message leaves behind, if something was created.
  pub sync_new_message-IsPostOf :
      (now : ℕ) (event : MatrixEvent) (channel : Text) (b after : Bridge S)
      → (extract_matrix_message_content kv mm converter event.content b.store == []) ≡ false
      → sync_new_message kv mm client settings converter now event channel b ≡ (after, done)
      → (post : Post) × IsPostOf kv stored mm event.event_id post after.store
        × (post.message ≡ extract_matrix_message_content kv mm converter event.content b.store)
        × (post.channel_id ≡ channel)
  unfolding sync_new_message convert_matrix_to_mattermost post_of
  sync_new_message-IsPostOf now event channel b after written =
      let content = extract_matrix_message_content kv mm converter event.content b.store in
      let got =
        get_or_create_mattermost_user kv mm (some client) settings event.sender channel b.store in
      rw written (elim (Option-cases got.1) [
        | inl e ↦ rw (e, sync_new_message) (λ h. absurd (ground arith))
        | inr (user, e) ↦
            rw (e, sync_new_message)
              (λ h.
                let rooted =
                  thread_root kv mm client settings converter now event.content channel
                    (record b { store = got.0 }) in
                let (id, edit, known) =
                  create_and_map-IsPostOf (post_of settings event channel user content rooted.1)
                    event.event_id rooted.0 after h in
                (
                  record (post_of settings event channel user content rooted.1) {
                    id = id;
                    edit_at = edit;
                  },
                  known,
                  refl,
                  refl,
                ))
      ])

  edit_post_lem :
      (timestamp : ℕ) (message : Text) (post : Post) (b edited : Bridge S)
      → (post.id == []) ≡ false
      → mm.get_post post.id b.store ≡ some post
      → edit_post kv mm client settings converter timestamp message post.id b ≡ (edited, done)
      → (edit : ℕ) × (mm.get_post post.id edited.store
          ≡ some (record post { message = message; edit_at = edit }))
  unfolding edit_post
  edit_post_lem timestamp message post b edited named there =
      let changed = record post { message = message; edit_at = timestamp } in
      rw named (
        rw (there, edit_post)
          (elim (Option-cases (mm.update_post changed b.store)) [
            | inl e ↦ rw (e, edit_post) (λ h. absurd (ground arith))
            | inr (after, e) ↦
                rw (e, edit_post)
                  (λ h.
                    let (edit, there) = laws.update_post_law changed b.store after e in
                    (
                      edit,
                      subst (λ s. mm.get_post post.id s ≡ some (record changed { edit_at = edit }))
                          (ap (λ x. x.0.store) h) there,
                    ))
          ]))

  handle_matrix_message_edit-edit_post :
      (now : ℕ) (edit : MatrixEvent) (relates_to : Fields) (event_id channel : Text) (post : Post)
      (b : Bridge S)
      → object_at (lit "m.relates_to") edit.content ≡ some relates_to
      → text_at (lit "event_id") relates_to ≡ some event_id
      → IsPostOf kv stored mm event_id post b.store
      → handle_matrix_message_edit kv mm client settings converter now edit channel b
        ≡ edit_post kv mm client settings converter edit.timestamp
            (extract_matrix_message_content kv mm converter edit.content b.store)
            post.id
            b
  unfolding handle_matrix_message_edit convert_matrix_to_mattermost
  handle_matrix_message_edit-edit_post now edit relates_to event_id channel post b related target
        known =
      rw (related, handle_matrix_message_edit)
        (rw (target, handle_matrix_message_edit)
          (rw (get_post_id-IsPostOf now event_id channel post b known) refl))

  -- If the store does not fail, and a message with a text was synchronised without an error, then an
  -- edit of its event that ends without an error gives its post the text of the edit, and of the rest
  -- of the post nothing changes but the time of its last edit, whoever sends the edit, and whatever
  -- channel the edit comes by.
  pub handle_matrix_message_edit-sync_new_message :
      (now later : ℕ) (event edit : MatrixEvent) (relates_to : Fields) (channel other : Text)
      (b sent edited : Bridge S)
      → (extract_matrix_message_content kv mm converter event.content b.store == []) ≡ false
      → sync_new_message kv mm client settings converter now event channel b ≡ (sent, done)
      → object_at (lit "m.relates_to") edit.content ≡ some relates_to
      → text_at (lit "event_id") relates_to ≡ some event.event_id
      → handle_matrix_message_edit kv mm client settings converter later edit other sent
        ≡ (edited, done)
      → (post : Post) × (mm.get_post post.id sent.store ≡ some post)
        × (post.message ≡ extract_matrix_message_content kv mm converter event.content b.store)
        × (post.channel_id ≡ channel)
        × (time : ℕ) × (mm.get_post post.id edited.store
            ≡ some (record post {
              message = extract_matrix_message_content kv mm converter edit.content sent.store;
              edit_at = time;
            }))
  handle_matrix_message_edit-sync_new_message now later event edit relates_to channel other b sent
        edited written synced related target ended =
      let (post, known, text, at) =
        sync_new_message-IsPostOf now event channel b sent written synced in
      let last =
        sym (
          handle_matrix_message_edit-edit_post later edit relates_to event.event_id other post sent
            related target known)
        ∙ ended in
      let (time, changed) =
        edit_post_lem edit.timestamp _ post sent edited known.named known.there last in
      (post, known.there, text, at, time, changed)
