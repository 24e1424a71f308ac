-- ===== src/ToMatrix.antt =====
-- server/sync_to_matrix.go: what reaches Matrix from Mattermost. This module has what its parts share:
-- the Matrix server as an interface, the caches, and the steps that find the room and the event of a
-- post.
pub mod Users
pub mod Reactions
pub mod Posts
pub mod Attachments
pub mod Mentions
pub mod Sending
pub mod Sync
pub mod Direct
mod Tests
pub mod Sample
use mattermost_plugin_matrix.Prelude.{
  ℕ, ◌≡◌, Bool, true, false, Option, none, some, List, [], ◌∷◌, ◌++◌, if◌then◌else◌, Text, ◌==◌,
  lit,
}
use mattermost_plugin_matrix.Prelude.Dict
use mattermost_plugin_matrix.Prelude.Dict.{Dict}
use mattermost_plugin_matrix.Event.{Json, Fields, as_text, or_empty}
use mattermost_plugin_matrix.Store.{KvStore}
use mattermost_plugin_matrix.Cache.{Cache}
use mattermost_plugin_matrix.Mapping.{MatrixClient, Bridge, get_matrix_room_id, resolve_room_alias}
use mattermost_plugin_matrix.Mattermost.{User, Post}
use mattermost_plugin_matrix.ToMattermost.{extract_server_domain}

-- The Matrix server as the plugin calls it, over the state of the servers and of the store. None is an
-- error. A ghost user may be created although a later step of its creation fails. `ready` tells if there
-- is a token and the rate limit lets a message pass.
pub record MatrixServer (S : Type 0) : Type 0 where
  pub create_ghost_user : Text → Text → Option Text → S → S × Option Text
  pub register_user : Text → Text → S → S
  pub set_user_display_name : Text → Text → S → S
  pub set_display_name : Text → Text → S → S
  pub upload_avatar : Text → S → Option (S × Text)
  pub set_avatar_url : Text → Text → S → S
  pub invite_and_join : Text → Text → S → Option S
  pub send_reaction : Text → Text → Text → Text → S → Option S
  pub redact : Text → Text → Text → S → Option S
  pub get_relations : Text → Text → Text → S → Option (List Fields)
  pub ready : S → Bool
  pub send_event : Text → Fields → Text → S → Option (S × Text)
  pub get_event : Text → Text → S → Option Fields
  pub create_direct_room : List Text → Text → S → Option (S × Text)

-- `BridgeUtils`, with the caches that this direction uses besides the one of rooms
pub record MatrixBridge (S : Type 0) : Type 0 where
  pub bridge : Bridge S
  pub ghost_user_cache : Option Cache
  pub room_membership_cache : Option Cache

-- The settings that this direction reads, with the address of the Matrix server. `display_name_of` is
-- `GetDisplayName` of the Mattermost package.
pub record MatrixSettings : Type 0 where
  pub hostname : Option Text
  pub server_url : Text
  pub username_prefix : Text
  pub enable_mirror_mode : Bool
  pub matrix_server_domain : Text
  pub mirror_mode_password : Text
  pub sync_user_profiles : Bool
  pub display_name_of : User → Text

-- `matrixEventID` of a post, the empty text if its properties have none
unfoldable pub event_id_of : Option Text → Post → Text
event_id_of hostname post =
    or_empty
      (as_text (Dict.get (lit "matrix_event_id_" ++ extract_server_domain hostname) post.props))

-- The room of a channel, as each handler starts with it.
pub data RoomOf : Type 0 where
  unmapped unresolved : RoomOf
  room : Text → RoomOf

module _ {S : Type 0} (kv : KvStore S) (rooms : MatrixClient) where
  -- the steps that the handlers start with
  unfoldable pub room_of : ℕ → Text → MatrixBridge S → MatrixBridge S × RoomOf
  room_of now channel b =
      let (after, identifier) = get_matrix_room_id kv now channel b.bridge in
      let next = record b { bridge = after } in
      if identifier == [] then (next, unmapped) else elim (resolve_room_alias rooms identifier) [
        | none ↦ (next, unresolved)
        | some id ↦ (next, room id)
      ]
