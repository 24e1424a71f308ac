-- ===== src/ToMattermost/Messages/Roots.antt =====
-- The roots of the threads of messages and files (server/sync_to_mattermost.go).
use mattermost_plugin_matrix.Prelude.{
  ℕ, ◌≡◌, refl, ◌∙◌, false, Option, none, some, Option-cases, Bool-cases, inl, inr, [], Text, ◌==◌,
  lit,
}
use mattermost_plugin_matrix.Event.{Fields, object_at}
use mattermost_plugin_matrix.Store.{KvStore, IsKvStore, IsReliable}
use mattermost_plugin_matrix.Mapping.{Bridge}
use mattermost_plugin_matrix.Mattermost.{MattermostServer, IsMattermost, Post}
use mattermost_plugin_matrix.ToMattermost.{
  SyncClient, Settings, get_post_id_from_matrix_event, get_thread_root_from_post_id,
}
use mattermost_plugin_matrix.ToMattermost.Lookups.{get_post_id-store, related-store}
use mattermost_plugin_matrix.ToMattermost.Messages.{
  replied_to, threaded_under, root_of_parent, root_by, thread_root, file_root_by, file_root,
}
use mattermost_plugin_matrix.ToMattermost.Messages.Mapped.{IsPostOf, get_post_id-IsPostOf}

module _ {S : Type 0} (kv : KvStore S) (mm : MattermostServer S) (client : SyncClient)
    (settings : Settings) (converter : Text → Option Text) where
  root_of_parent-store :
      (now : ℕ) (parent channel : Text) (b : Bridge S)
      → (root_of_parent kv mm client settings converter now parent channel b).0.store ≡ b.store
  unfolding root_of_parent
  root_of_parent-store now parent channel b =
      let found = get_post_id_from_matrix_event kv client now parent channel b in
      elim (Bool-cases (found.1 == [])) [
        | inl e ↦ rw e (
            related-store kv client now parent channel found.0
            ∙ get_post_id-store kv client now parent channel b)
        | inr e ↦ rw e (get_post_id-store kv client now parent channel b)
      ]

  root_by-store :
      (now : ℕ) (parent : Option Text) (channel : Text) (b : Bridge S)
      → (root_by kv mm client settings converter now parent channel b).0.store ≡ b.store
  unfolding root_by
  root_by-store now none channel b = refl
  root_by-store now (some parent) channel b = root_of_parent-store now parent channel b

  file_root_by-store :
      (now : ℕ) (parent : Option Text) (channel : Text) (b : Bridge S)
      → (file_root_by kv mm client settings converter now parent channel b).0.store ≡ b.store
  unfolding file_root_by
  file_root_by-store now none channel b = refl
  file_root_by-store now (some parent) channel b = get_post_id-store kv client now parent channel b

  pub thread_root-store :
      (now : ℕ) (content : Fields) (channel : Text) (b : Bridge S)
      → (thread_root kv mm client settings converter now content channel b).0.store ≡ b.store
  unfolding thread_root
  thread_root-store now content channel b =
      elim (Option-cases (object_at (lit "m.relates_to") content)) [
        | inl e ↦ rw (e, thread_root) refl
        | inr (r, e) ↦
            let replied = root_by kv mm client settings converter now (replied_to r) channel b in
            rw (e, thread_root)
              (elim (Bool-cases (replied.1 == [])) [
                | inl f ↦ rw f (
                    root_by-store now (threaded_under r) channel replied.0
                    ∙ root_by-store now (replied_to r) channel b)
                | inr f ↦ rw f (root_by-store now (replied_to r) channel b)
              ])
      ]

  pub file_root-store :
      (now : ℕ) (content : Fields) (channel : Text) (b : Bridge S)
      → (file_root kv mm client settings converter now content channel b).0.store ≡ b.store
  unfolding file_root
  file_root-store now content channel b =
      elim (Option-cases (object_at (lit "m.relates_to") content)) [
        | inl e ↦ rw (e, file_root) refl
        | inr (r, e) ↦
            let replied =
              file_root_by kv mm client settings converter now (replied_to r) channel b in
            rw (e, file_root)
              (elim (Bool-cases (replied.1 == [])) [
                | inl f ↦ rw f (
                    file_root_by-store now (threaded_under r) channel replied.0
                    ∙ file_root_by-store now (replied_to r) channel b)
                | inr f ↦ rw f (file_root_by-store now (replied_to r) channel b)
              ])
      ]

module _ {S : Type 0} (kv : KvStore S) (stored : IsKvStore kv) (mm : MattermostServer S)
    (laws : IsMattermost kv stored.contents mm) (reliable : IsReliable kv stored.contents)
    (client : SyncClient) (settings : Settings) (converter : Text → Option Text) where
  root_of_parent-IsPostOf :
      (now : ℕ) (parent channel : Text) (post : Post) (b : Bridge S)
      → IsPostOf kv stored mm parent post b.store
      → (post.root_id == []) ≡ false
      → root_of_parent kv mm client settings converter now parent channel b ≡ (b, post.root_id)
  unfolding root_of_parent get_thread_root_from_post_id
  root_of_parent-IsPostOf now parent channel post b known nested =
      rw
        (get_post_id-IsPostOf kv stored mm laws reliable client settings converter now parent
          channel post b known)
        (rw known.named (rw (known.there) (rw nested refl)))

  -- If the store does not fail, then a message that replies to an event whose post is itself a reply
  -- goes under the root of that post's thread, while a file that does goes under the post itself,
  -- which is not a root.
  pub thread_root-file_root :
      (now : ℕ) (content relates_to : Fields) (parent channel : Text) (post : Post) (b : Bridge S)
      → object_at (lit "m.relates_to") content ≡ some relates_to
      → replied_to relates_to ≡ some parent
      → IsPostOf kv stored mm parent post b.store
      → (post.root_id == []) ≡ false
      → ((thread_root kv mm client settings converter now content channel b).1 ≡ post.root_id)
        × ((file_root kv mm client settings converter now content channel b).1 ≡ post.id)
  unfolding thread_root file_root root_by file_root_by
  thread_root-file_root now content relates_to parent channel post b related reply known nested =
      let rooted = root_of_parent-IsPostOf now parent channel post b known nested in
      let found =
        get_post_id-IsPostOf kv stored mm laws reliable client settings converter now parent channel
          post b known in
      (
        rw (related, thread_root) (rw (reply, root_by) (rw rooted (rw nested refl))),
        rw (related, file_root) (rw (reply, file_root_by) (rw found (rw known.named refl))),
      )
