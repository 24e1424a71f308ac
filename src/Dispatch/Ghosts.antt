-- ===== src/Dispatch/Ghosts.antt =====
-- What our own ghost users send does not come back to Mattermost (server/matrix_webhook.go).
use mattermost_plugin_matrix.Prelude.{
  ◌≡◌, ◌⊎◌, false, Option, some, List, [], ◌++◌, Text, ◌==◌, lit,
}
use mattermost_plugin_matrix.Event.{MatrixEvent}
use mattermost_plugin_matrix.Store.{KvStore}
use mattermost_plugin_matrix.Mapping.{get_channel_id_from_matrix_room}
use mattermost_plugin_matrix.Mattermost.{MattermostServer}
use mattermost_plugin_matrix.ToMattermost.{SyncClient, Settings}
use mattermost_plugin_matrix.ToMattermost.Reactions.{Codec}

module _ {S : Type 0} (kv : KvStore S) (mm : MattermostServer S) (client : SyncClient)
    (settings : Settings) (converter : Text → Option Text) (codec : Codec)
    (emoji_name_of : Text → Text) (direct_channel : Text → Text → S → Option (S × Text)) where
  -- An event whose sender has the name of one of our ghost users: a Mattermost user, at the host of the
  -- Matrix server. If it is about a member, then its room is mapped to a channel.
  pub record IsEcho (s : S) (event : MatrixEvent) : Type 0 where
    pub user : Text
    pub host : Text
    pub hosted : settings.hostname ≡ some host
    pub sent : event.sender ≡ lit "@_mattermost_" ++ user ++ lit ":" ++ host
    pub placed :
        ((event.kind == lit "m.room.member") ≡ false)
        ⊎ ((get_channel_id_from_matrix_room kv (some client.rooms) event.room_id s == []) ≡ false)
