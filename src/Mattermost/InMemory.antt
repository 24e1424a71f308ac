-- ===== src/Mattermost/InMemory.antt =====
-- A Mattermost server in memory with its key-value store, of which no operation fails, as an instance
-- of the interface. Its identifiers count the posts and the users.
use mattermost_plugin_matrix.Prelude.{
  ℕ, suc, ◌≡◌, ◌≢◌, refl, Bool, true, false, ◌&&◌, Option, none, some, Option-cases, Bool-cases,
  sym, ap, ◌∙◌, inl, inr, [], ◌∷◌, if◌then◌else◌, Text, ◌==◌, eq_iff, eq_refl, replicate, arith,
}
use mattermost_plugin_matrix.Prelude.Dict
use mattermost_plugin_matrix.Prelude.Dict.{Dict}
use mattermost_plugin_matrix.Store.{KvStore, IsKvStore}
use mattermost_plugin_matrix.Store.Memory.{memory, value_of, get_law, set_law, delete_law}
use mattermost_plugin_matrix.Mattermost.{
  User, Post, Reaction, Channel, MattermostServer, IsMattermost, known, KeepsPosts, KeepsUsers,
}

pub record Server : Type 0 where
  pub stored : Dict Text
  pub users : Text → Option User
  pub posts : Text → Option Post
  pub members : Text → Text → Bool
  pub reactions : Text → Text → Text → Bool
  pub channels : Text → Option Channel
  pub count : ℕ

abbrev pub nobody : Server
nobody = record {
  stored = [];
  users = λ id. none;
  posts = λ id. none;
  members = λ channel user. false;
  reactions = λ post user emoji. false;
  channels = λ id. none;
  count = 0;
}

abbrev stored_or_none : Server → Option (Dict Text) → Option Server
stored_or_none s none = none
stored_or_none s (some m) = some (record s { stored = m })

abbrev pub server_kv : KvStore Server
server_kv = record {
  get = λ k s. memory.get k s.stored;
  set = λ k v s. some (record s { stored = Dict.put k v s.stored });
  delete = λ k s. some (record s { stored = Dict.remove k s.stored });
  list_keys_with_prefix =
      λ page per_page prefix s. memory.list_keys_with_prefix page per_page prefix s.stored;
}

-- An identifier that is not empty.
abbrev pub id_of : ℕ → Text
id_of n = 105 ∷ replicate n 49

abbrev pub put_at {ℓ} : {A : Type ℓ} → Text → A → (Text → A) → Text → A
put_at id a f j = if id == j then a else f j

-- Teams have no members of their own here, and names are free.
abbrev pub server : MattermostServer Server
server = record {
  get_user = λ id s. s.users id;
  get_user_by_username = λ name s. none;
  create_user = λ user s. some (
    record s { users = put_at (id_of s.count) (some user) s.users; count = suc s.count },
    id_of s.count,
  );
  update_user = λ user s. some (record s { users = put_at user.id (some user) s.users });
  get_profile_image = λ id s. none;
  set_profile_image = λ id image s. some s;
  get_channel = λ id s. s.channels id;
  has_team_member = λ team user s. true;
  create_team_member = λ team user s. some s;
  has_channel_member = λ channel user s. s.members channel user;
  add_channel_member = λ channel user s.
      some (record s { members = put_at channel (put_at user true (s.members channel)) s.members });
  delete_channel_member = λ channel user s.
      some
        (record s { members = put_at channel (put_at user false (s.members channel)) s.members });
  get_post = λ id s. elim (s.posts id) [
    | none ↦ none
    | some post ↦ if post.id == id then some post else none
  ];
  create_post = λ post s. some (
    record s {
      posts = put_at (id_of s.count) (some (record post { id = id_of s.count })) s.posts;
      count = suc s.count;
    },
    id_of s.count,
  );
  update_post = λ post s. some (record s { posts = put_at post.id (some post) s.posts });
  delete_post = λ id s. some (record s { posts = put_at id none s.posts });
  add_reaction = λ r s. some (record s {
    reactions =
        put_at r.post_id
          (put_at r.user_id (put_at r.emoji_name true (s.reactions r.post_id r.user_id))
            (s.reactions r.post_id))
          s.reactions;
  });
  remove_reaction = λ r s. some (record s {
    reactions =
        put_at r.post_id
          (put_at r.user_id (put_at r.emoji_name false (s.reactions r.post_id r.user_id))
            (s.reactions r.post_id))
          s.reactions;
  });
  upload_file = λ content channel name s. some (s, name);
}

abbrev pub server_contents : Text → Server → Text
server_contents k s = value_of k s.stored

pub put_kv_law :
    (k j v : Text) (s after : Server)
    → server_kv.set k v s ≡ some after
    → server_contents j after ≡ (if k == j then v else server_contents j s)
put_kv_law k j v s after h =
    let same : after ≡ record s { stored = Dict.put k v s.stored } = ground arith in
    rw same (set_law k j v s.stored (Dict.put k v s.stored) refl)

pub remove_kv_law :
    (k j : Text) (s after : Server)
    → server_kv.delete k s ≡ some after
    → server_contents j after ≡ (if k == j then [] else server_contents j s)
remove_kv_law k j s after h =
    let same : after ≡ record s { stored = Dict.remove k s.stored } = ground arith in
    rw same (delete_law k j s.stored (Dict.remove k s.stored) refl)

abbrev pub server_kv-IsKvStore : IsKvStore server_kv
server_kv-IsKvStore = record {
  contents = server_contents;
  contents-get = λ k v s h. get_law k v s.stored h;
  contents-set = put_kv_law;
  contents-delete = remove_kv_law;
}

-- What an operation on the key-value store keeps.
abbrev Kept : Server → Server → Type 0
Kept s t =
    KeepsPosts server s t
    × KeepsUsers server s t
    × ((post user emoji : Text) → t.reactions post user emoji ≡ s.reactions post user emoji)

stored-Kept : (s : Server) (m : Dict Text) → Kept s (record s { stored = m })
stored-Kept s m = (λ id post h. h, λ id k. k, λ post user emoji. refl)

set-Kept : (k v : Text) (s t : Server) → server_kv.set k v s ≡ some t → Kept s t
set-Kept k v s t h =
    let same : t ≡ record s { stored = Dict.put k v s.stored } = ground arith in
    rw same (stored-Kept s (Dict.put k v s.stored))

delete-Kept : (k : Text) (s t : Server) → server_kv.delete k s ≡ some t → Kept s t
delete-Kept k s t h =
    let same : t ≡ record s { stored = Dict.remove k s.stored } = ground arith in
    rw same (stored-Kept s (Dict.remove k s.stored))

-- What an operation on users or teams keeps.
abbrev Settled : Server → Server → Type 0
Settled s t =
    ((k : Text) → server_contents k t ≡ server_contents k s)
    × KeepsPosts server s t
    × KeepsUsers server s t

put_user :
    (id : Text) (user : User) (s : Server) (n : ℕ)
    → Settled s (record s { users = put_at id (some user) s.users; count = n })
put_user id user s n = (λ k. refl, λ j post h. h, λ j there. ground arith)

same-Settled : (s t : Server) → some s ≡ some t → Settled s t
same-Settled s t h =
    let same : t ≡ s = ground arith in rw same (λ k. refl, λ j post h. h, λ j there. there)

update_settles : (user : User) (s t : Server) → server.update_user user s ≡ some t → Settled s t
update_settles user s t h =
    let same : t ≡ record s { users = put_at user.id (some user) s.users } = ground arith in
    rw same (put_user user.id user s s.count)

create_settles :
    (user : User) (id : Text) (s t : Server)
    → server.create_user user s ≡ some (t, id)
    → (known server id t ≡ true)
      × ((k : Text) → server_contents k t ≡ server_contents k s)
      × KeepsPosts server s t
      × KeepsUsers server s t
create_settles user id s t h =
    let named : id ≡ id_of s.count = ground arith in
    let same : t
        ≡ (record s { users = put_at (id_of s.count) (some user) s.users; count = suc s.count }) =
      ground arith in
    rw (named, same)
      (
        ground (arith, eq_refl (id_of s.count)),
        λ k. refl,
        λ j post there. there,
        λ j there. ground arith,
      )

adds_member :
    (channel id : Text) (s t : Server)
    → server.add_channel_member channel id s ≡ some t
    → t.members channel id ≡ true
adds_member channel id s t h = ground (arith, eq_refl channel, eq_refl id)

deletes_member :
    (channel id : Text) (s t : Server)
    → server.delete_channel_member channel id s ≡ some t
    → t.members channel id ≡ false
deletes_member channel id s t h = ground (arith, eq_refl channel, eq_refl id)

names_post :
    (id : Text) (post : Post) (s : Server) → server.get_post id s ≡ some post → post.id ≡ id
names_post id post s h = elim (Option-cases (s.posts id)) [
  | inl missing ↦ absurd (ground arith)
  | inr (p, found) ↦ ground (arith, eq_iff p.id id)
]

creates_post :
    (post : Post) (id : Text) (s t : Server)
    → server.create_post post s ≡ some (t, id)
    → ((edit : ℕ) × (server.get_post id t ≡ some (record post { id = id; edit_at = edit })))
      × (id ≢ [])
      × ((k : Text) → server_contents k t ≡ server_contents k s)
creates_post post id s t h =
    let named : id ≡ id_of s.count = ground arith in
    let same : t ≡ (record s {
      posts = put_at (id_of s.count) (some (record post { id = id_of s.count })) s.posts;
      count = suc s.count;
    }) =
      ground arith in
    rw (named, same)
      ((post.edit_at, ground (arith, eq_refl (id_of s.count))), λ e. ground arith, λ k. refl)

updates_post :
    (post : Post) (s t : Server)
    → server.update_post post s ≡ some t
    → (edit : ℕ) × (server.get_post post.id t ≡ some (record post { edit_at = edit }))
updates_post post s t h =
    let same : t ≡ record s { posts = put_at post.id (some post) s.posts } = ground arith in
    rw same (post.edit_at, ground (arith, eq_refl post.id))

deletes_post :
    (id : Text) (s t : Server)
    → server.delete_post id s ≡ some t
    → (server.get_post id t ≡ none) × ((k : Text) → server_contents k t ≡ server_contents k s)
deletes_post id s t h =
    let same : t ≡ record s { posts = put_at id none s.posts } = ground arith in
    rw same (ground (arith, eq_refl id), λ k. refl)

adds_reaction :
    (r : Reaction) (s t : Server)
    → server.add_reaction r s ≡ some t
    → (t.reactions r.post_id r.user_id r.emoji_name ≡ true)
      × ((k : Text) → server_contents k t ≡ server_contents k s)
adds_reaction r s t h =
    (ground (arith, eq_refl r.post_id, eq_refl r.user_id, eq_refl r.emoji_name), λ k. ground arith)

same_either_way : (a b : Text) → (a == b) ≡ (b == a)
same_either_way a b = ground (arith, eq_iff a b, eq_iff b a)

removed :
    (r : Reaction) (reactions : Text → Text → Text → Bool) (post user emoji : Text)
    → put_at r.post_id
        (put_at r.user_id
          (put_at r.emoji_name false (reactions r.post_id r.user_id))
          (reactions r.post_id))
        reactions
        post
        user
        emoji
      ≡ (if post == r.post_id && user == r.user_id && emoji == r.emoji_name
          then false
          else reactions post user emoji)
removed r reactions post user emoji =
    rw
      (
        same_either_way post r.post_id,
        same_either_way user r.user_id,
        same_either_way emoji r.emoji_name,
      )
      (elim (Bool-cases (r.post_id == post)) [
        | inr e ↦ rw e refl
        | inl e ↦
            let same_post : reactions post ≡ reactions r.post_id =
              ap reactions (sym ((eq_iff r.post_id post).0 e)) in
            rw e (elim (Bool-cases (r.user_id == user)) [
              | inr f ↦ rw f (ap (λ g. g user emoji) (sym same_post))
              | inl f ↦
                  let same_user : reactions post user ≡ reactions r.post_id r.user_id =
                    ap (λ g. g user) same_post
                    ∙ ap (reactions r.post_id) (sym ((eq_iff r.user_id user).0 f)) in
                  rw f (elim (Bool-cases (r.emoji_name == emoji)) [
                    | inl g ↦ rw g refl
                    | inr g ↦ rw g (ap (λ h. h emoji) (sym same_user))
                  ])
            ])
      ])

removes_reaction :
    (r : Reaction) (s t : Server)
    → server.remove_reaction r s ≡ some t
    → (post user emoji : Text)
    → t.reactions post user emoji ≡ (
        if post == r.post_id && user == r.user_id && emoji == r.emoji_name
        then false
        else s.reactions post user emoji)
removes_reaction r s t h post user emoji =
    let same : t ≡ (record s {
      reactions =
          put_at r.post_id
            (put_at r.user_id (put_at r.emoji_name false (s.reactions r.post_id r.user_id))
              (s.reactions r.post_id))
            s.reactions;
    }) =
      ground arith in
    rw same (removed r s.reactions post user emoji)

uploads :
    (content channel name id : Text) (s t : Server)
    → server.upload_file content channel name s ≡ some (t, id)
    → KeepsPosts server s t
uploads content channel name id s t h =
    let same : t ≡ s = ground arith in rw same (λ j post there. there)

pub server-IsMattermost : IsMattermost server_kv server_contents server
server-IsMattermost = record {
  has_reaction = λ post user emoji s. s.reactions post user emoji;
  set_law = set-Kept;
  delete_law = delete-Kept;
  create_user_law = create_settles;
  update_user_law = update_settles;
  set_profile_image_law = λ id image s t h. same-Settled s t h;
  create_team_member_law = λ team id s t h. same-Settled s t h;
  add_channel_member_law = adds_member;
  delete_channel_member_law = deletes_member;
  get_post_law = names_post;
  create_post_law = creates_post;
  update_post_law = updates_post;
  delete_post_law = deletes_post;
  add_reaction_law = adds_reaction;
  remove_reaction_law = removes_reaction;
  upload_file_law = uploads;
}
