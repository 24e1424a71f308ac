-- ===== src/ToMatrix/Direct.antt =====
-- server/sync_to_matrix.go: the rooms of direct channels, which are made for their first post, and the
-- synchronisation of posts by their channel.
pub mod Rooms
pub mod Again
mod Tests
use mattermost_plugin_matrix.Prelude.{
  ℕ, zero, suc, ◌≡◌, refl, ap, ◌∙◌, Bool, not, ltb, Option, none, some, List, [], ◌∷◌, ◌++◌, length,
  take, drop, ◌+◌, ◌*◌, ◌≤◌, if◌then◌else◌, Text, ◌==◌, lit, arith,
}
use mattermost_plugin_matrix.Store.{KvStore}
use mattermost_plugin_matrix.Mapping.{
  MatrixClient, get_matrix_room_id, set_channel_room_mapping, resolve_room_alias,
}
use mattermost_plugin_matrix.Mattermost.{
  MattermostServer, Post, open_channel, private_channel, direct_channel, group_channel,
}
use mattermost_plugin_matrix.ToMattermost.{Outcome, done, failed}
use mattermost_plugin_matrix.ToMatrix.{MatrixServer, MatrixBridge, MatrixSettings}
use mattermost_plugin_matrix.ToMatrix.Users.{
  with_store, create_or_get_ghost_user, get_matrix_user_id_from_mattermost_user,
}
use mattermost_plugin_matrix.ToMatrix.Reactions.{is_remote}
use mattermost_plugin_matrix.ToMatrix.Posts.{delete_post_from_matrix}
use mattermost_plugin_matrix.ToMatrix.Sync.{
  PostServer, Sync, sync_post_to_matrix_with_resolved_room,
}

-- A post with what decides on its way: if it was deleted, and `UpdateAt`.
pub record Change : Type 0 where
  pub post : Post
  pub deleted : Bool
  pub update_at : ℕ

drop_all : (n : ℕ) (xs : List Text) → length xs ≤ n → drop n xs ≡ []
drop_all zero [] h = refl
drop_all zero (x ∷ xs) h = absurd (ground arith)
drop_all (suc n) [] h = refl
drop_all (suc n) (x ∷ xs) h = drop_all n xs (ground arith)

append_nil : (xs : List Text) → xs ++ [] ≡ xs
append_nil [] = refl
append_nil (x ∷ xs) = ap (◌∷◌ x) (append_nil xs)

module _ {S : Type 0} (mm : MattermostServer S) (posts : PostServer S) where
  -- the loop of `isDirectChannel` over the members of a group, which passes the offset as the number of
  -- a page
  unfoldable pub group_members : ℕ → Text → ℕ → S → Option (List Text)
  group_members zero channel offset s = none
  group_members (suc fuel) channel offset s =
      let rest = group_members fuel channel (offset + 100) s in
      elim (posts.get_channel_members channel offset 100 s) [
        | none ↦ none
        | some members ↦ elim members [
          | [] ↦ some []
          | member ∷ more ↦ elim rest [ none ↦ none | some others ↦ some (member ∷ more ++ others) ]
        ]
      ]

  -- The loop ends: two pages are enough for any group of at most ten thousand members, and it is its first
  -- hundred members that are found.
  pub group_members_lem :
      (channel : Text) (members : List Text) (s : S)
      → ((page per_page : ℕ)
          → posts.get_channel_members channel page per_page s
            ≡ some (take per_page (drop (page * per_page) members)))
      → length members ≤ 10000
      → group_members 2 channel 0 s ≡ some (take 100 members)
  unfolding group_members
  group_members_lem channel [] s pages small = rw (pages 0 100, group_members) refl
  group_members_lem channel (member ∷ members) s pages small =
      let last : posts.get_channel_members channel 100 100 s ≡ some [] =
        pages 100 100 ∙ ap (λ x. some (take 100 x)) (drop_all 10000 (member ∷ members) small) in
      rw (pages 0 100, group_members)
        (rw (last, group_members) (ap (λ x. some (member ∷ x)) (append_nil (take 99 members))))

  abbrev as_direct : Option (List Text) → Option (Option (List Text))
  as_direct none = none
  as_direct (some users) = some (some users)

  -- `isDirectChannel` (server/bridge_utils.go): none for an error, and the users of a direct channel
  unfoldable pub is_direct_channel : ℕ → Text → S → Option (Option (List Text))
  is_direct_channel fuel channel s = elim (mm.get_channel channel s) [
    | none ↦ none
    | some found ↦ elim found.kind [
      | open_channel ↦ some none
      | private_channel ↦ some none
      | direct_channel ↦ as_direct (posts.get_channel_members channel 0 10 s)
      | group_channel ↦ as_direct (group_members fuel channel 0 s)
    ]
  ]

module _ {S : Type 0} (kv : KvStore S) (mm : MattermostServer S) (mx : MatrixServer S)
    (rooms : MatrixClient) (settings : MatrixSettings) where
  -- one round of the loop of `getOrCreateDMRoom`
  unfoldable pub dm_user : ℕ → Text → MatrixBridge S → MatrixBridge S × Option Text
  dm_user now user_id b = elim (mm.get_user user_id b.bridge.store) [
    | none ↦ (b, none)
    | some user ↦
        if is_remote user
        then (b, get_matrix_user_id_from_mattermost_user kv mm mx settings user_id b.bridge.store)
        else create_or_get_ghost_user kv mm mx settings now user_id b
  ]

  -- the loop
  unfoldable pub dm_users : ℕ → List Text → MatrixBridge S → MatrixBridge S × List Text
  dm_users now [] b = (b, [])
  dm_users now (user_id ∷ user_ids) b =
      let (after, id) = dm_user now user_id b in
      let (last, ids) = dm_users now user_ids after in
      (last, elim id [ none ↦ ids | some matrix_user_id ↦ matrix_user_id ∷ ids ])

  -- the name of the room
  unfoldable pub dm_name : Text → S → Text
  dm_name user_id s = elim (mm.get_user user_id s) [
    | none ↦ lit "Direct Message"
    | some user ↦ lit "DM with " ++ settings.display_name_of user
  ]

  -- the end of `getOrCreateDMRoom`; an error of the mapping is only logged
  unfoldable pub create_dm_room :
      ℕ → Text → List Text → Text → MatrixBridge S → MatrixBridge S × Option Text
  create_dm_room now channel users initiating_user b =
      if ltb (length users) 2
      then (b, none)
      else elim (mx.create_direct_room users (dm_name initiating_user b.bridge.store)
          b.bridge.store) [
            | none ↦ (b, none)
            | some (created, id) ↦
                let made = with_store created b in
                (
                  record made {
                    bridge = (set_channel_room_mapping kv rooms now channel id made.bridge).0;
                  },
                  some id,
                )
          ]

  -- `getOrCreateDMRoom`
  unfoldable pub get_or_create_dm_room :
      ℕ → Text → List Text → Text → MatrixBridge S → MatrixBridge S × Option Text
  get_or_create_dm_room now channel user_ids initiating_user b =
      let (after, existing) = get_matrix_room_id kv now channel b.bridge in
      let looked : MatrixBridge S = record b { bridge = after } in
      if not (existing == [])
      then (looked, some existing)
      else let (found, users) = dm_users now user_ids looked in
        create_dm_room now channel users initiating_user found

module _ {S : Type 0} (kv : KvStore S) (mm : MattermostServer S) (posts : PostServer S)
    (mx : MatrixServer S) (rooms : MatrixClient) (settings : MatrixSettings) (remote_id : Text)
    (name_length : Text → ℕ) where
  -- A post in the room of an identifier.
  unfoldable pub sync_in_room : ℕ → Change → Text → Text → Sync S → Sync S × Outcome
  sync_in_room now change channel identifier sync = elim (resolve_room_alias rooms identifier) [
    | none ↦ (sync, failed)
    | some room_id ↦
        sync_post_to_matrix_with_resolved_room kv mm posts mx rooms settings remote_id name_length
          change.deleted change.update_at now change.post channel room_id sync
  ]

  -- a post in a channel that has no room
  unfoldable pub sync_direct : ℕ → ℕ → Change → Text → Sync S → Sync S × Outcome
  sync_direct fuel now change channel sync =
      elim (is_direct_channel mm posts fuel channel sync.matrix.bridge.store) [
        | none ↦ (sync, failed)
        | some direct ↦ elim direct [
          | none ↦ (sync, done)
          | some user_ids ↦
              let (after, identifier) =
                get_or_create_dm_room kv mm mx rooms settings now channel user_ids
                  change.post.user_id sync.matrix in
              let next : Sync S = record sync { matrix = after } in
              elim identifier [
                | none ↦ (next, failed)
                | some id ↦ sync_in_room now change channel id next
              ]
        ]
      ]

  -- `SyncPostToMatrix`, with fuel for the members of a group
  unfoldable pub sync_post_to_matrix : ℕ → ℕ → Change → Text → Sync S → Sync S × Outcome
  sync_post_to_matrix fuel now change channel sync =
      if change.deleted
      then (let (after, outcome) =
            delete_post_from_matrix kv mm mx rooms settings now change.post channel sync.matrix in
          (record sync { matrix = after }, outcome))
      else let (after, identifier) = get_matrix_room_id kv now channel sync.matrix.bridge in
        let looked : Sync S = record sync { matrix = record sync.matrix { bridge = after } } in
        if identifier == []
        then sync_direct fuel now change channel looked
        else sync_in_room now change channel identifier looked

  -- the loops of `SyncPostsToMatrix`, whose errors are only logged
  unfoldable pub sync_each : (Change → Sync S → Sync S × Outcome) → List Change → Sync S → Sync S
  sync_each act [] sync = sync
  sync_each act (change ∷ changes) sync = sync_each act changes (act change sync).0

  -- `SyncPostsToMatrix`
  unfoldable pub sync_posts_to_matrix : ℕ → ℕ → List Change → Text → Sync S → Sync S × Outcome
  sync_posts_to_matrix fuel now [] channel sync = (sync, done)
  sync_posts_to_matrix fuel now (first ∷ more) channel sync =
      let (after, identifier) = get_matrix_room_id kv now channel sync.matrix.bridge in
      let looked : Sync S = record sync { matrix = record sync.matrix { bridge = after } } in
      if identifier == []
      then (
        sync_each (λ change s. sync_post_to_matrix fuel now change channel s) (first ∷ more) looked,
        done,
      )
      else elim (resolve_room_alias rooms identifier) [
        | none ↦ (looked, failed)
        | some room_id ↦ (
          sync_each
              (λ change s.
                sync_post_to_matrix_with_resolved_room kv mm posts mx rooms settings remote_id
                  name_length change.deleted change.update_at now change.post channel room_id s)
              (first ∷ more) looked,
          done,
        )
      ]
