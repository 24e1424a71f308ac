-- ===== src/ToMattermost/Users/Again.antt =====
-- A Matrix user keeps its Mattermost user: `getOrCreateMattermostUser` (server/sync_to_mattermost.go)
-- finds again what it has returned.
use mattermost_plugin_matrix.Prelude.{
  ◌≡◌, refl, sym, ◌∙◌, ap, true, false, Option, some, Option-cases, Bool-cases, inl, inr, [], Text,
  ◌==◌, eq_refl, arith, if◌then◌else◌,
}
use mattermost_plugin_matrix.Store.{
  KvStore, IsKvStore, IsReliable, or_same, build_matrix_user_key, build_mattermost_user_key,
}
use mattermost_plugin_matrix.Store.Keys.{mattermost_user-matrix_user}
use mattermost_plugin_matrix.Event.{or_empty}
use mattermost_plugin_matrix.Mattermost.{MattermostServer, IsMattermost, known}
use mattermost_plugin_matrix.ToMattermost.{SyncClient, Settings}
use mattermost_plugin_matrix.ToMattermost.Names.{
  extract_username_from_matrix_user_id, generate_mattermost_username,
}
use mattermost_plugin_matrix.ToMattermost.Users.{
  join_team, existing_user, new_profile, new_user, settle_user, create_mattermost_user,
  get_or_create_mattermost_user,
}
use mattermost_plugin_matrix.ToMattermost.Users.Keeps.{existing_user-Still, settle_user-Calm}

module _ {S : Type 0} (kv : KvStore S) (stored : IsKvStore kv) (mm : MattermostServer S)
    (laws : IsMattermost kv stored.contents mm) (reliable : IsReliable kv stored.contents)
    (client : Option SyncClient) (settings : Settings) where
  -- The store has a user for a Matrix user, which is there.
  pub record IsMapped (matrix id : Text) (s : S) : Type 0 where
    pub mapping : stored.contents (build_matrix_user_key matrix) s ≡ id
    pub there : known mm id s ≡ true

  set-mapping :
      (k v j : Text) (s : S)
      → stored.contents j (or_same s (kv.set k v s)) ≡ (if k == j then v else stored.contents j s)
  set-mapping k v j s =
      let (after, e) = reliable.writes k v s in rw e (stored.contents-set k j v s after e)

  settle_user-IsMapped :
      (matrix channel id avatar : Text) (s : S)
      → known mm id s ≡ true
      → IsMapped matrix id (settle_user kv mm client settings matrix channel id avatar s)
  unfolding settle_user
  settle_user-IsMapped matrix channel id avatar s there =
      let pictured = (if avatar == [] then s else or_same s (mm.set_profile_image id avatar s)) in
      let joined = join_team kv mm client settings id channel pictured in
      let mapped = or_same joined (kv.set (build_matrix_user_key matrix) id joined) in
      record {
        mapping = ground (
          arith,
          set-mapping (build_mattermost_user_key id) matrix (build_matrix_user_key matrix) mapped,
          mattermost_user-matrix_user id matrix,
          set-mapping (build_matrix_user_key matrix) id (build_matrix_user_key matrix) joined,
          eq_refl (build_matrix_user_key matrix),
        );
        there =
            (settle_user-Calm kv stored mm laws client settings matrix channel id avatar s).users id
              there;
      }

  existing_user-IsMapped :
      (matrix channel id : Text) (s : S)
      → (existing_user kv mm client settings matrix channel s).1 ≡ some id
      → IsMapped matrix id (existing_user kv mm client settings matrix channel s).0
  existing_user-IsMapped matrix channel id s found =
      let (still, read, there) =
        existing_user-Still kv stored mm laws client settings matrix channel id s found in
      let key = build_matrix_user_key matrix in
      record {
        mapping = still.stored key ∙ sym (ap or_empty (reliable.reads key s)) ∙ read;
        there = still.calm.users id there;
      }

  create_mattermost_user-IsMapped :
      (matrix channel id : Text) (s : S)
      → (create_mattermost_user kv mm client settings matrix channel s).1 ≡ some id
      → IsMapped matrix id (create_mattermost_user kv mm client settings matrix channel s).0
  unfolding create_mattermost_user
  create_mattermost_user-IsMapped matrix channel id s =
      let username = extract_username_from_matrix_user_id matrix in
      let profile = new_profile kv mm client settings matrix username in
      let user =
        new_user kv mm client settings
          (generate_mattermost_username mm settings.username_prefix username s) profile in
      elim (Bool-cases (username == [])) [
        | inl e ↦ rw e (λ h. absurd (ground arith))
        | inr e ↦ rw e (elim (Option-cases (mm.create_user user s)) [
          | inl f ↦ rw (f, create_mattermost_user) (λ h. absurd (ground arith))
          | inr ((created, made), f) ↦
              rw (f, create_mattermost_user)
                (λ h.
                  let same : made ≡ id = ground arith in
                  rw (← same) (
                    settle_user-IsMapped matrix channel made profile.avatar created
                      (laws.create_user_law user made s created f).0))
        ])
      ]

  existing_user-found :
      (matrix channel id : Text) (s : S)
      → IsMapped matrix id s
      → (id == []) ≡ false
      → (existing_user kv mm client settings matrix channel s).1 ≡ some id
  unfolding existing_user
  existing_user-found matrix channel id s mapped named =
      let key = build_matrix_user_key matrix in
      let read : or_empty (kv.get key s) ≡ id =
        ap or_empty (reliable.reads key s) ∙ mapped.mapping in
      elim (Option-cases (mm.get_user id s)) [
        | inl e ↦ absurd (ground (arith, mapped.there))
        | inr (user, e) ↦ rw (read, existing_user) (rw named (rw (e, existing_user) (ap some read)))
      ]

  get_or_create_mattermost_user-IsMapped :
      (matrix channel id : Text) (s : S)
      → (get_or_create_mattermost_user kv mm client settings matrix channel s).1 ≡ some id
      → IsMapped matrix id (get_or_create_mattermost_user kv mm client settings matrix channel s).0
  unfolding get_or_create_mattermost_user
  get_or_create_mattermost_user-IsMapped matrix channel id s =
      let first = existing_user kv mm client settings matrix channel s in
      elim (Option-cases first.1) [
        | inr (found, e) ↦
            rw (e, get_or_create_mattermost_user)
              (λ h. existing_user-IsMapped matrix channel id s (e ∙ h))
        | inl e ↦
            rw (e, get_or_create_mattermost_user)
              (create_mattermost_user-IsMapped matrix channel id first.0)
      ]

  -- If the store does not fail, then a Matrix user for which a Mattermost user was returned, that is
  -- not the empty text, gets the same one on the next call, whichever the channels are.
  pub get_or_create_mattermost_user_again :
      (matrix channel other id : Text) (s : S)
      → (get_or_create_mattermost_user kv mm client settings matrix channel s).1 ≡ some id
      → (id == []) ≡ false
      → (get_or_create_mattermost_user kv mm client settings matrix other
          (get_or_create_mattermost_user kv mm client settings matrix channel s).0).1
        ≡ some id
  unfolding get_or_create_mattermost_user
  get_or_create_mattermost_user_again matrix channel other id s got named =
      let after = (get_or_create_mattermost_user kv mm client settings matrix channel s).0 in
      rw
        (
          existing_user-found matrix other id after
              (get_or_create_mattermost_user-IsMapped matrix channel id s got) named,
          get_or_create_mattermost_user,
        )
        refl
