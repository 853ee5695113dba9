-- ===== src/Client/Data.antt =====
-- pkg/lierc/client.go: what the status of a client shows. A map is ranged over in the list's order.
use lierc.Base.{Bool, List, [], ◌∷◌, ◌++◌, Text, Map}
use lierc.Config.{IrcConfig}
use lierc.Isupport.{Prefix, isupport_tokens}
use lierc.Channel.{Topic, Channel}
use lierc.Client.{Client, current_nick, prefixes, isupport, acked_caps, nick_prefix}
use lierc.Connection.{Status, status}

-- IRCChannelData
pub record ChannelData : Type 0 where
  pub name : Text
  pub nicks : List Text
  pub topic : Topic
  pub mode : Text

-- IRCClientData
pub record ClientData : Type 0 where
  pub id : Text
  pub config : IrcConfig
  pub nick : Text
  pub channels : List ChannelData
  pub registered : Bool
  pub status : Status
  pub isupport : List Text
  pub caps_acked : List Text

-- NicksWithPrefix, over channel.Nicks.
unfoldable pub prefixed_nicks : List Prefix → Map Text → List Text
unfolding nick_prefix
prefixed_nicks ps [] = []
prefixed_nicks ps ((nick, mode) ∷ rest) = (nick_prefix ps mode ++ nick) ∷ prefixed_nicks ps rest

unfoldable pub nicks_with_prefix : Channel → Client → List Text
unfolding prefixed_nicks prefixes
nicks_with_prefix channel c = prefixed_nicks (prefixes c) channel.nicks

unfoldable pub channel_data : Client → Map Channel → List ChannelData
unfolding nicks_with_prefix
channel_data c [] = []
channel_data c ((name, channel) ∷ rest) =
    (record {
      name = channel.name;
      nicks = nicks_with_prefix channel c;
      topic = channel.topic;
      mode = b'+' ∷ channel.mode;
    })
    ∷ channel_data c rest

-- The names of the caps, in the map's order.
unfoldable pub cap_names : Map Text → List Text
cap_names [] = []
cap_names ((k, v) ∷ caps) = k ∷ cap_names caps

unfoldable pub caps_acked : Client → List Text
unfolding cap_names acked_caps
caps_acked c = cap_names (acked_caps c)

unfoldable pub client_data : Client → ClientData
unfolding channel_data caps_acked isupport current_nick status
client_data c = record {
  id = c.id;
  config = c.config;
  nick = current_nick c;
  channels = channel_data c c.channels;
  registered = c.registered;
  status = status c;
  isupport = isupport_tokens (isupport c);
  caps_acked = caps_acked c;
}
