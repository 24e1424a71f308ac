-- ===== src/ToMattermost/Users/Keeps.antt =====
-- What `getOrCreateMattermostUser` (server/sync_to_mattermost.go) leaves as it is: the posts and the
-- users that are there.
use mattermost_plugin_matrix.Prelude.{
  ◌≡◌, refl, ◌∙◌, true, Option, none, some, Option-cases, Bool-cases, inl, inr, [], Text, ◌==◌,
  arith, if◌then◌else◌,
}
use mattermost_plugin_matrix.Store.{
  KvStore, IsKvStore, or_same, build_matrix_user_key, build_mattermost_user_key,
}
use mattermost_plugin_matrix.Event.{or_empty}
use mattermost_plugin_matrix.Mattermost.{
  MattermostServer, IsMattermost, User, KeepsPosts, KeepsUsers, known,
}
use mattermost_plugin_matrix.ToMattermost.{SyncClient, UserProfile, Settings}
use mattermost_plugin_matrix.ToMattermost.Names.{
  extract_username_from_matrix_user_id, generate_mattermost_username,
}
use mattermost_plugin_matrix.ToMattermost.Profiles.{
  with_names, needs_update, compare_image_data, download_matrix_avatar,
  update_mattermost_user_avatar, apply_profile, update_mattermost_user_profile,
}
use mattermost_plugin_matrix.ToMattermost.Users.{
  add_user_to_channel_team, has_no_team, join_team, existing_user, new_profile, new_user,
  settle_user, create_mattermost_user, get_or_create_mattermost_user,
}

module _ {S : Type 0} (mm : MattermostServer S) where
  -- No post that is there changes, and no user goes.
  pub record Calm (s t : S) : Type 0 where
    pub posts : KeepsPosts mm s t
    pub users : KeepsUsers mm s t

  pub Calm-refl : (s : S) → Calm s s
  Calm-refl s = record { posts = λ id post there. there; users = λ id there. there }

  pub Calm-trans : (s t u : S) → Calm s t → Calm t u → Calm s u
  Calm-trans s t u p q = record {
    posts = λ id post there. q.posts id post (p.posts id post there);
    users = λ id there. q.users id (p.users id there);
  }

  -- A step whose error is only logged.
  pub or_same-Calm :
      (s : S) (o : Option S) → ((t : S) → o ≡ some t → Calm s t) → Calm s (or_same s o)
  or_same-Calm s none h = Calm-refl s
  or_same-Calm s (some t) h = h t refl

  module _ (contents : Text → S → Text) where
    -- Neither does anything in the key-value store.
    pub record Quiet (s t : S) : Type 0 where
      pub calm : Calm s t
      pub stored : (k : Text) → contents k t ≡ contents k s

    pub Quiet-refl : (s : S) → Quiet s s
    Quiet-refl s = record { calm = Calm-refl s; stored = λ k. refl }

    pub Quiet-trans : (s t u : S) → Quiet s t → Quiet t u → Quiet s u
    Quiet-trans s t u p q = record {
      calm = Calm-trans s t u p.calm q.calm;
      stored = λ k. q.stored k ∙ p.stored k;
    }

    pub or_same-Quiet :
        (s : S) (o : Option S) → ((t : S) → o ≡ some t → Quiet s t) → Quiet s (or_same s o)
    or_same-Quiet s none h = Quiet-refl s
    or_same-Quiet s (some t) h = h t refl

module _ {S : Type 0} (kv : KvStore S) (stored : IsKvStore kv) (mm : MattermostServer S)
    (laws : IsMattermost kv stored.contents mm) (client : Option SyncClient)
    (settings : Settings) where
  abbrev Still : S → S → Type 0
  Still = Quiet mm stored.contents

  update_user-Still : (user : User) (s : S) → Still s (or_same s (mm.update_user user s))
  update_user-Still user s = or_same-Quiet mm stored.contents s (mm.update_user user s) (λ t e.
      let (k, p, u) = laws.update_user_law user s t e in
      record { calm = record { posts = p; users = u }; stored = k })

  set_profile_image-Still :
      (id image : Text) (s : S) → Still s (or_same s (mm.set_profile_image id image s))
  set_profile_image-Still id image s =
      or_same-Quiet mm stored.contents s (mm.set_profile_image id image s) (λ t e.
        let (k, p, u) = laws.set_profile_image_law id image s t e in
        record { calm = record { posts = p; users = u }; stored = k })

  add_user_to_channel_team-Still :
      (user channel : Text) (s : S)
      → Still s (add_user_to_channel_team kv mm client settings user channel s).0
  unfolding add_user_to_channel_team
  add_user_to_channel_team-Still user channel s = elim (Option-cases (mm.get_channel channel s)) [
    | inl e ↦ rw (e, add_user_to_channel_team) (Quiet-refl mm stored.contents s)
    | inr (c, e) ↦
        rw (e, add_user_to_channel_team)
          (elim (Bool-cases (has_no_team c)) [
            | inl no_team ↦ rw no_team (Quiet-refl mm stored.contents s)
            | inr team ↦ rw team (elim (Bool-cases (mm.has_team_member c.team_id user s)) [
              | inl there ↦ rw there (Quiet-refl mm stored.contents s)
              | inr missing ↦
                  rw missing (elim (Option-cases (mm.create_team_member c.team_id user s)) [
                    | inl f ↦ rw f (Quiet-refl mm stored.contents s)
                    | inr (t, f) ↦ rw f (
                        let (k, p, u) = laws.create_team_member_law c.team_id user s t f in
                        record { calm = record { posts = p; users = u }; stored = k })
                  ])
            ])
          ])
  ]

  join_team-Still :
      (user channel : Text) (s : S) → Still s (join_team kv mm client settings user channel s)
  unfolding join_team
  join_team-Still user channel s = elim (Bool-cases (channel == [])) [
    | inl e ↦ rw e (Quiet-refl mm stored.contents s)
    | inr e ↦ rw e (add_user_to_channel_team-Still user channel s)
  ]

  update_mattermost_user_avatar-Still :
      (user : User) (url : Text) (s : S)
      → Still s (update_mattermost_user_avatar mm client user url s)
  unfolding update_mattermost_user_avatar
  update_mattermost_user_avatar-Still user url s =
      elim (Option-cases (download_matrix_avatar mm client url)) [
        | inl e ↦ rw (e, update_mattermost_user_avatar) (Quiet-refl mm stored.contents s)
        | inr (image, e) ↦
            rw (e, update_mattermost_user_avatar)
              (elim (Bool-cases (compare_image_data (mm.get_profile_image user.id s) image)) [
                | inl same ↦ rw same (Quiet-refl mm stored.contents s)
                | inr other ↦ rw other (set_profile_image-Still user.id image s)
              ])
      ]

  apply_profile-Still :
      (user : User) (profile : UserProfile) (s : S)
      → Still s (apply_profile mm client user profile s)
  unfolding apply_profile
  apply_profile-Still user profile s =
      let updated = with_names profile user in
      let named = (if needs_update user updated then or_same s (mm.update_user updated s) else s) in
      let first : Still s named = elim (Bool-cases (needs_update user updated)) [
        | inl e ↦ rw e (update_user-Still updated s)
        | inr e ↦ rw e (Quiet-refl mm stored.contents s)
      ] in
      elim (Bool-cases (profile.avatar_url == [])) [
        | inl e ↦ rw e first
        | inr e ↦ rw e (
            Quiet-trans mm stored.contents s named _ first
              (update_mattermost_user_avatar-Still user profile.avatar_url named))
      ]

  pub update_mattermost_user_profile-Still :
      (user : User) (matrix_user_id : Text) (given : Option UserProfile) (s : S)
      → Still s (update_mattermost_user_profile mm client user matrix_user_id given s)
  unfolding update_mattermost_user_profile
  update_mattermost_user_profile-Still user matrix_user_id given s = elim (Option-cases client) [
    | inl e ↦ rw (e, update_mattermost_user_profile) (Quiet-refl mm stored.contents s)
    | inr (c, e) ↦
        rw (e, update_mattermost_user_profile)
          (elim (Option-cases given) [
            | inr (profile, f) ↦
                rw (f, update_mattermost_user_profile) (apply_profile-Still user profile s)
            | inl f ↦
                rw (f, update_mattermost_user_profile)
                  (elim (Option-cases (c.get_user_profile matrix_user_id)) [
                    | inl g ↦
                        rw (g, update_mattermost_user_profile) (Quiet-refl mm stored.contents s)
                    | inr (profile, g) ↦
                        rw (g, update_mattermost_user_profile) (apply_profile-Still user profile s)
                  ])
          ])
  ]

  set-Calm : (k v : Text) (s : S) → Calm mm s (or_same s (kv.set k v s))
  set-Calm k v s =
      or_same-Calm mm s (kv.set k v s)
        (λ t e. let (p, u, r) = laws.set_law k v s t e in record { posts = p; users = u })

  delete-Calm : (k : Text) (s : S) → Calm mm s (or_same s (kv.delete k s))
  delete-Calm k s =
      or_same-Calm mm s (kv.delete k s)
        (λ t e. let (p, u, r) = laws.delete_law k s t e in record { posts = p; users = u })

  -- A user that is found is that of the mapping, and nothing of the store changes.
  pub existing_user-Still :
      (matrix channel id : Text) (s : S)
      → (existing_user kv mm client settings matrix channel s).1 ≡ some id
      → Still s (existing_user kv mm client settings matrix channel s).0
        × (or_empty (kv.get (build_matrix_user_key matrix) s) ≡ id)
        × (known mm id s ≡ true)
  unfolding existing_user
  existing_user-Still matrix channel id s =
      let found = or_empty (kv.get (build_matrix_user_key matrix) s) in
      elim (Bool-cases (found == [])) [
        | inl e ↦ rw e (λ h. absurd (ground arith))
        | inr e ↦ rw e (elim (Option-cases (mm.get_user found s)) [
          | inl f ↦ rw (f, existing_user) (λ h. absurd (ground arith))
          | inr (user, f) ↦
              rw (f, existing_user)
                (λ h.
                  let same : found ≡ id = ground arith in
                  (
                    Quiet-trans mm stored.contents s _ _ (join_team-Still found channel s) (
                        update_mattermost_user_profile-Still user matrix none
                          (join_team kv mm client settings found channel s)),
                    same,
                    rw (← same) (rw f refl),
                  ))
        ])
      ]

  missing_user-Calm :
      (matrix channel : Text) (s : S)
      → (existing_user kv mm client settings matrix channel s).1 ≡ none
      → Calm mm s (existing_user kv mm client settings matrix channel s).0
  unfolding existing_user
  missing_user-Calm matrix channel s =
      let found = or_empty (kv.get (build_matrix_user_key matrix) s) in
      elim (Bool-cases (found == [])) [
        | inl e ↦ rw e (λ h. Calm-refl mm s)
        | inr e ↦ rw e (elim (Option-cases (mm.get_user found s)) [
          | inl f ↦ rw (f, existing_user) (λ h. delete-Calm (build_matrix_user_key matrix) s)
          | inr (user, f) ↦ rw (f, existing_user) (λ h. absurd (ground arith))
        ])
      ]

  existing_user-Calm :
      (matrix channel : Text) (s : S)
      → Calm mm s (existing_user kv mm client settings matrix channel s).0
  existing_user-Calm matrix channel s =
      elim (Option-cases (existing_user kv mm client settings matrix channel s).1) [
        | inl e ↦ missing_user-Calm matrix channel s e
        | inr (id, e) ↦ (existing_user-Still matrix channel id s e).0.calm
      ]

  -- the store before the mappings are written
  pub joined-Still :
      (id avatar channel : Text) (s : S)
      → Still s (
          join_team kv mm client settings id channel
            (if avatar == [] then s else or_same s (mm.set_profile_image id avatar s)))
  joined-Still id avatar channel s = elim (Bool-cases (avatar == [])) [
    | inl e ↦ rw e (join_team-Still id channel s)
    | inr e ↦ rw e (
        Quiet-trans mm stored.contents s _ _ (set_profile_image-Still id avatar s)
          (join_team-Still id channel (or_same s (mm.set_profile_image id avatar s))))
  ]

  pub settle_user-Calm :
      (matrix channel id avatar : Text) (s : S)
      → Calm mm s (settle_user kv mm client settings matrix channel id avatar s)
  unfolding settle_user
  settle_user-Calm matrix channel id avatar s =
      let pictured = (if avatar == [] then s else or_same s (mm.set_profile_image id avatar s)) in
      let joined = join_team kv mm client settings id channel pictured in
      let mapped = or_same joined (kv.set (build_matrix_user_key matrix) id joined) in
      Calm-trans mm s joined _ (joined-Still id avatar channel s).calm (
        Calm-trans mm joined mapped _ (set-Calm (build_matrix_user_key matrix) id joined)
          (set-Calm (build_mattermost_user_key id) matrix mapped))

  create_mattermost_user-Calm :
      (matrix channel : Text) (s : S)
      → Calm mm s (create_mattermost_user kv mm client settings matrix channel s).0
  unfolding create_mattermost_user
  create_mattermost_user-Calm matrix channel s =
      let username = extract_username_from_matrix_user_id matrix in
      let profile = new_profile kv mm client settings matrix username in
      let user =
        new_user kv mm client settings
          (generate_mattermost_username mm settings.username_prefix username s) profile in
      elim (Bool-cases (username == [])) [
        | inl e ↦ rw e (Calm-refl mm s)
        | inr e ↦ rw e (elim (Option-cases (mm.create_user user s)) [
          | inl f ↦ rw (f, create_mattermost_user) (Calm-refl mm s)
          | inr ((created, id), f) ↦
              rw (f, create_mattermost_user)
                (let (there, k, p, u) = laws.create_user_law user id s created f in
                  Calm-trans mm s created _ (record { posts = p; users = u })
                    (settle_user-Calm matrix channel id profile.avatar created))
        ])
      ]

  -- Getting or creating the Mattermost user of a Matrix user changes no post that is there and removes
  -- no user, whether it succeeds or not, and whatever fails on the way.
  pub get_or_create_mattermost_user-Calm :
      (matrix channel : Text) (s : S)
      → Calm mm s (get_or_create_mattermost_user kv mm client settings matrix channel s).0
  unfolding get_or_create_mattermost_user
  get_or_create_mattermost_user-Calm matrix channel s =
      let first = existing_user kv mm client settings matrix channel s in
      elim (Option-cases first.1) [
        | inr (id, e) ↦ rw (e, get_or_create_mattermost_user) (existing_user-Calm matrix channel s)
        | inl e ↦
            rw (e, get_or_create_mattermost_user)
              (Calm-trans mm s first.0 _ (existing_user-Calm matrix channel s)
                (create_mattermost_user-Calm matrix channel first.0))
      ]
