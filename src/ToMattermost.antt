-- ===== src/ToMattermost.antt =====
-- server/sync_to_mattermost.go: what reaches Mattermost from Matrix. This module has what its parts
-- share: the settings of the bridge, and how a Matrix event is traced to a Mattermost post.
pub mod Names
pub mod Sample
mod Tests
pub mod Lookups
pub mod Profiles
pub mod Users
pub mod Messages
pub mod Emoji
pub mod Reactions
pub mod Redactions
pub mod Members
use mattermost_plugin_matrix.Prelude.{
  ℕ, ◌≡◌, Bool, true, false, ◌&&◌, not, Option, none, some, List, [], ◌∷◌, ◌++◌, if◌then◌else◌,
  Text, ◌==◌, lit, map, eqb,
}
use mattermost_plugin_matrix.Event.{MatrixEvent, Fields, text_at, object_at, or_empty}
use mattermost_plugin_matrix.Store.{KvStore, or_same, build_matrix_event_post_key}
use mattermost_plugin_matrix.Mattermost.{MattermostServer, Post}
use mattermost_plugin_matrix.Mapping.{MatrixClient, Bridge, get_matrix_room_id, resolve_room_alias}

-- `UserProfile` of the Matrix client
pub record UserProfile : Type 0 where
  pub display_name : Text
  pub avatar_url : Text

-- The Matrix client of the bridge: rooms, and what the Matrix server answers of events, profiles and
-- files. None is an error.
pub record SyncClient : Type 0 where
  pub rooms : MatrixClient
  pub get_event : Text → Text → Option Fields
  pub get_user_profile : Text → Option UserProfile
  pub download_avatar : Text → Option Text
  pub download_file : Text → Option Text

-- `BridgeUtils`, as far as it is fixed: `hostname` is that of the configured Matrix server, none if
-- its URL has none, and `username_prefix` is the setting.
pub record Settings : Type 0 where
  pub remote_id : Text
  pub hostname : Option Text
  pub username_prefix : Text

-- What a handler returns: nothing, or an error.
pub data Outcome : Type 0 where
  done failed : Outcome

-- `strings.ReplaceAll`, of one byte by one byte
abbrev pub replace_byte : ℕ → ℕ → Text → Text
replace_byte old new = map (λ c. if eqb c old then new else c)

-- `extractServerDomain` (server/matrix_util.go)
unfoldable pub extract_server_domain : Option Text → Text
extract_server_domain none = lit "unknown"
extract_server_domain (some hostname) =
    if hostname == [] then lit "unknown" else replace_byte 58 95 (replace_byte 46 95 hostname)

-- `extractMattermostMetadata` (server/bridge_utils.go)
unfoldable pub extract_mattermost_metadata : MatrixEvent → Text × Text
extract_mattermost_metadata event = (
  or_empty (text_at (lit "mattermost_post_id") event.content),
  or_empty (text_at (lit "mattermost_remote_id") event.content),
)

-- `getPostIDFromMatrixEventMetadata`, after the event is fetched
unfoldable pub post_id_in_metadata : Option Fields → Text
post_id_in_metadata none = []
post_id_in_metadata (some event) = elim (object_at (lit "content") event) [
  | none ↦ []
  | some content ↦ or_empty (text_at (lit "mattermost_post_id") content)
]

-- the primary message that a file is an attachment of
unfoldable pub primary_event : Option Fields → Option Text
primary_event none = none
primary_event (some event) = elim (object_at (lit "content") event) [
  | none ↦ none
  | some content ↦ elim (object_at (lit "m.relates_to") content) [
    | none ↦ none
    | some relates_to ↦
        if or_empty (text_at (lit "rel_type") relates_to) == lit "m.mattermost.post"
        then text_at (lit "event_id") relates_to
        else none
  ]
]

module _ {S : Type 0} (kv : KvStore S) (client : SyncClient) where
  -- `storeMatrixEventPostMapping`, whose error is only logged
  unfoldable pub store_matrix_event_post_mapping : Text → Text → S → S
  store_matrix_event_post_mapping matrix_event_id mattermost_post_id s =
      or_same s (kv.set (build_matrix_event_post_key matrix_event_id) mattermost_post_id s)

  -- the steps that three functions share: the room of the channel, its alias resolved
  unfoldable pub room_of_channel : ℕ → Text → Bridge S → Bridge S × Option Text
  room_of_channel now channel b =
      let (after, identifier) = get_matrix_room_id kv now channel b in
      if identifier == []
      then (after, none)
      else (after, resolve_room_alias client.rooms identifier)

  -- an event of the room that a channel is mapped to, none if any step fails
  unfoldable pub event_of_channel : ℕ → Text → Text → Bridge S → Bridge S × Option Fields
  event_of_channel now matrix_event_id channel b =
      let (after, room) = room_of_channel now channel b in
      elim room [
        | none ↦ (after, none)
        | some room_id ↦ (after, client.get_event room_id matrix_event_id)
      ]

  -- `getPostIDFromMatrixEvent`, with `getPostIDFromMatrixEventMetadata` as its second half
  unfoldable pub get_post_id_from_matrix_event : ℕ → Text → Text → Bridge S → Bridge S × Text
  get_post_id_from_matrix_event now matrix_event_id channel b =
      let mapped = or_empty (kv.get (build_matrix_event_post_key matrix_event_id) b.store) in
      if not (mapped == [])
      then (b, mapped)
      else (let (after, event) = event_of_channel now matrix_event_id channel b in
          (after, post_id_in_metadata event))

  -- `getPostIDFromRelatedMatrixEvent`
  unfoldable pub get_post_id_from_related_matrix_event :
      ℕ → Text → Text → Bridge S → Bridge S × Text
  get_post_id_from_related_matrix_event now matrix_event_id channel b =
      let (after, event) = event_of_channel now matrix_event_id channel b in
      elim (primary_event event) [
        | none ↦ (after, [])
        | some primary ↦ get_post_id_from_matrix_event now primary channel after
      ]

module _ {S : Type 0} (mm : MattermostServer S) where
  -- `getThreadRootFromPostID`
  unfoldable pub get_thread_root_from_post_id : Text → S → Text
  get_thread_root_from_post_id post_id s =
      if post_id == [] then [] else elim (mm.get_post post_id s) [
        | none ↦ post_id
        | some post ↦ if post.root_id == [] then post_id else post.root_id
      ]
