-- ===== src/Mattermost.antt =====
-- The Mattermost server, as far as the synchronisation calls it (plugin.API): what it stores of users,
-- posts and members, its operations as parameters, and their documented behaviour as laws.
pub mod InMemory
use mattermost_plugin_matrix.Prelude.{
  ℕ, ◌≡◌, ◌≢◌, Bool, true, false, ◌&&◌, Option, none, some, List, [], Text, ◌==◌, if◌then◌else◌,
}
use mattermost_plugin_matrix.Prelude.Dict.{Dict}
use mattermost_plugin_matrix.Event.{Json}
use mattermost_plugin_matrix.Store.{KvStore}

-- `model.User`, as far as the program sets or reads it; the server chooses the identifier
pub record User : Type 0 where
  pub id : Text
  pub username : Text
  pub email : Text
  pub nickname : Text
  pub first_name : Text
  pub last_name : Text
  pub remote_id : Text

-- `model.Post`
pub record Post : Type 0 where
  pub id : Text
  pub user_id : Text
  pub channel_id : Text
  pub message : Text
  pub create_at : ℕ
  pub edit_at : ℕ
  pub root_id : Text
  pub remote_id : Text
  pub file_ids : List Text
  pub props : Dict Json

-- `model.Reaction`
pub record Reaction : Type 0 where
  pub user_id : Text
  pub post_id : Text
  pub emoji_name : Text
  pub create_at : ℕ
  pub remote_id : Text

-- The types of a channel: those with members of a team, and the others.
pub data ChannelType : Type 0 where
  open_channel private_channel direct_channel group_channel : ChannelType

pub record Channel : Type 0 where
  pub kind : ChannelType
  pub team_id : Text

-- `plugin.API`, over the type of what the server stores. An operation that fails gives none, and a
-- test of membership gives false.
pub record MattermostServer (S : Type 0) : Type 0 where
  pub get_user : Text → S → Option User
  pub get_user_by_username : Text → S → Option User
  pub create_user : User → S → Option (S × Text)
  pub update_user : User → S → Option S
  pub get_profile_image : Text → S → Option Text
  pub set_profile_image : Text → Text → S → Option S
  pub get_channel : Text → S → Option Channel
  pub has_team_member : Text → Text → S → Bool
  pub create_team_member : Text → Text → S → Option S
  pub has_channel_member : Text → Text → S → Bool
  pub add_channel_member : Text → Text → S → Option S
  pub delete_channel_member : Text → Text → S → Option S
  pub get_post : Text → S → Option Post
  pub create_post : Post → S → Option (S × Text)
  pub update_post : Post → S → Option S
  pub delete_post : Text → S → Option S
  pub add_reaction : Reaction → S → Option S
  pub remove_reaction : Reaction → S → Option S
  pub upload_file : Text → Text → Text → S → Option (S × Text)

-- If an optional value is there.
abbrev pub is_some {ℓ} : {A : Type ℓ} → Option A → Bool
is_some none = false
is_some (some a) = true

module _ {S : Type 0} (mm : MattermostServer S) where
  -- If a user is there.
  abbrev pub known : Text → S → Bool
  known id s = is_some (mm.get_user id s)

  -- The posts that are there stay as they are; others may come.
  abbrev pub KeepsPosts : S → S → Type 0
  KeepsPosts s t =
      (id : Text) (post : Post) → mm.get_post id s ≡ some post → mm.get_post id t ≡ some post

  -- Only new users.
  abbrev pub KeepsUsers : S → S → Type 0
  KeepsUsers s t = (id : Text) → known id s ≡ true → known id t ≡ true

-- What the program relies on. The posts, the users and the members are what the server answers for
-- them; `contents` is what the key-value store has, which only its own operations change. Who joins a
-- team may join channels, and the server may post about it, but no post that is there changes. The
-- server sets the time of an edit itself. Removing a post may remove others, which are replies to it.
pub record IsMattermost {S : Type 0} (kv : KvStore S) (contents : Text → S → Text)
    (mm : MattermostServer S) : Type 0 where
  pub has_reaction : Text → Text → Text → S → Bool
  pub set_law :
      (k v : Text) (s t : S)
      → kv.set k v s ≡ some t
      → KeepsPosts mm s t
        × KeepsUsers mm s t
        × ((post user emoji : Text)
            → has_reaction post user emoji t ≡ has_reaction post user emoji s)
  pub delete_law :
      (k : Text) (s t : S)
      → kv.delete k s ≡ some t
      → KeepsPosts mm s t
        × KeepsUsers mm s t
        × ((post user emoji : Text)
            → has_reaction post user emoji t ≡ has_reaction post user emoji s)
  pub create_user_law :
      (user : User) (id : Text) (s t : S)
      → mm.create_user user s ≡ some (t, id)
      → (known mm id t ≡ true)
        × ((k : Text) → contents k t ≡ contents k s)
        × KeepsPosts mm s t
        × KeepsUsers mm s t
  pub update_user_law :
      (user : User) (s t : S)
      → mm.update_user user s ≡ some t
      → ((k : Text) → contents k t ≡ contents k s) × KeepsPosts mm s t × KeepsUsers mm s t
  pub set_profile_image_law :
      (id image : Text) (s t : S)
      → mm.set_profile_image id image s ≡ some t
      → ((k : Text) → contents k t ≡ contents k s) × KeepsPosts mm s t × KeepsUsers mm s t
  pub create_team_member_law :
      (team id : Text) (s t : S)
      → mm.create_team_member team id s ≡ some t
      → ((k : Text) → contents k t ≡ contents k s) × KeepsPosts mm s t × KeepsUsers mm s t
  pub add_channel_member_law :
      (channel id : Text) (s t : S)
      → mm.add_channel_member channel id s ≡ some t
      → mm.has_channel_member channel id t ≡ true
  pub delete_channel_member_law :
      (channel id : Text) (s t : S)
      → mm.delete_channel_member channel id s ≡ some t
      → mm.has_channel_member channel id t ≡ false
  pub get_post_law : (id : Text) (post : Post) (s : S) → mm.get_post id s ≡ some post → post.id ≡ id
  pub create_post_law :
      (post : Post) (id : Text) (s t : S)
      → mm.create_post post s ≡ some (t, id)
      → ((edit : ℕ) × (mm.get_post id t ≡ some (record post { id = id; edit_at = edit })))
        × (id ≢ [])
        × ((k : Text) → contents k t ≡ contents k s)
  pub update_post_law :
      (post : Post) (s t : S)
      → mm.update_post post s ≡ some t
      → (edit : ℕ) × (mm.get_post post.id t ≡ some (record post { edit_at = edit }))
  pub delete_post_law :
      (id : Text) (s t : S)
      → mm.delete_post id s ≡ some t
      → (mm.get_post id t ≡ none) × ((k : Text) → contents k t ≡ contents k s)
  pub add_reaction_law :
      (r : Reaction) (s t : S)
      → mm.add_reaction r s ≡ some t
      → (has_reaction r.post_id r.user_id r.emoji_name t ≡ true)
        × ((k : Text) → contents k t ≡ contents k s)
  pub remove_reaction_law :
      (r : Reaction) (s t : S)
      → mm.remove_reaction r s ≡ some t
      → (post user emoji : Text)
      → has_reaction post user emoji t ≡ (
          if post == r.post_id && user == r.user_id && emoji == r.emoji_name
          then false
          else has_reaction post user emoji s)
  pub upload_file_law :
      (content channel name id : Text) (s t : S)
      → mm.upload_file content channel name s ≡ some (t, id)
      → KeepsPosts mm s t
