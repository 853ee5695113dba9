-- ===== src/Logger/Inbox.antt =====
-- pkg/logger/logger.go: the handlers of the topics from the body of a message on, over the store. JSON and
-- the database are parameters: the decoders are none for an error, and a message without a `message` field
-- has none.
pub mod Private
mod Tests
use lierc.Base.{ℕ, Bool, true, false, List, [], ◌∷◌, Option, none, some, if◌then◌else◌, Text, text}
use lierc.Unicode.{Unicode}
use lierc.Irc.{IrcMessage, Prefix}
use lierc.Logger.{
  LogKind, log_pass, log_skip, log_target, log_status, log_type, Action, published, inserted_multi,
  logged, route_chat, Route, Answers, Stored, handle_route, handle_multi, handle_config,
  match_highlight,
}
use lierc.Logger.Store.{
  LogRow, Scanned, LogRows, Greatest, insert_message, insert_messages, PrivateRow, ConfigRow,
  insert_private, merge_config,
}

pub record ChatBody : Type 0 where
  pub id : Text
  pub message : Option IrcMessage

pub record MultiBody : Type 0 where
  pub id : Text
  pub message : Option IrcMessage
  pub channels : List Text

pub record ConfigBody : Type 0 where
  pub id : Text
  pub fields : List Text

-- encoding/json, and what the database makes of the statements.
pub record Backend : Type 0 where
  pub decode_chat : Text → Option ChatBody
  pub decode_multi : Text → Option MultiBody
  pub decode_config : Text → Option ConfigBody
  pub encode_message : IrcMessage → Option Text
  pub encode_fields : List Text → Option Text
  pub insert_row : LogRow → Scanned
  pub insert_rows : LogRows → Greatest
  pub upsert_private : PrivateRow → Bool
  pub update_config : ConfigRow → Bool

-- A chats message whose prefix is null: reading it panics, which is none, where a handler does so.
unfoldable pub bare_kind : Text → IrcMessage → LogKind → Option (List Action × Bool)
bare_kind id m log_skip = some ([], true)
bare_kind id m log_pass =
    if m.direct then none else some (published (text "logged") (logged id m 0 false) ∷ [], true)
bare_kind id m log_target = none
bare_kind id m log_status = none

unfoldable pub bare_chat : List Text → Text → IrcMessage → Option (List Action × Bool)
unfolding bare_kind
bare_chat numerics id m = elim (log_type numerics m) [
  | none ↦ none
  | some kind ↦ bare_kind id m kind
]

module _ ⦃u : Unicode⦄ (back : Backend) where
  -- What the store answers for a message on its route.
  unfoldable pub chat_answers : Option (Text → Bool) → Prefix → Text → IrcMessage → Route → Answers
  unfolding insert_message insert_private
  chat_answers pattern p id m r = record {
    private_works = insert_private back.upsert_private id r.channel m.time;
    insert =
        insert_message back.encode_message back.insert_row id p m r.channel
          (match_highlight pattern p m);
  }

  unfoldable pub route_message :
      Option (Text → Bool) → Prefix → Text → IrcMessage → Option Route → Option (List Action × Bool)
  unfolding chat_answers handle_route
  route_message pattern p id m none = none
  route_message pattern p id m (some r) =
      some (handle_route pattern p id m (chat_answers pattern p id m r) r)

  unfoldable pub prefixed_chat :
      List Text
      → Option (Text → Bool)
      → Text
      → IrcMessage
      → Option Prefix
      → Option (List Action × Bool)
  unfolding route_message bare_chat
  prefixed_chat numerics pattern id m none = bare_chat numerics id m
  prefixed_chat numerics pattern id m (some p) =
      route_message pattern p id m (route_chat numerics p m)

  unfoldable pub chat_message :
      List Text
      → (Text → Option (Text → Bool))
      → Text
      → Option IrcMessage
      → Option (List Action × Bool)
  unfolding prefixed_chat
  chat_message numerics patterns id none = some ([], true)
  chat_message numerics patterns id (some m) = prefixed_chat numerics (patterns id) id m m.prefix

  -- handleChat, with the pattern of each connection. What cannot be read is dropped.
  unfoldable pub receive_chat :
      List Text → (Text → Option (Text → Bool)) → Text → Option (List Action × Bool)
  unfolding chat_message
  receive_chat numerics patterns body = elim (back.decode_chat body) [
    | none ↦ some ([], true)
    | some b ↦ chat_message numerics patterns b.id b.message
  ]

  -- InsertMessages reads m.Prefix.Self, and so panics without a prefix if there are channels; with none
  -- the message is published, and publish reads the prefix of a direct one.
  unfoldable pub bare_multi : Text → IrcMessage → List Text → Option (List Action × Bool)
  bare_multi id m [] =
      if m.direct
      then none
      else some
          (inserted_multi id m [] ∷ published (text "logged") (logged id m 0 false) ∷ [], true)
  bare_multi id m (c ∷ cs) = elim (back.encode_message m) [
    | none ↦ some ([], false)
    | some v ↦ none
  ]

  unfoldable pub prefixed_multi :
      Text → IrcMessage → List Text → Option Prefix → Option (List Action × Bool)
  unfolding bare_multi handle_multi insert_messages
  prefixed_multi id m channels none = bare_multi id m channels
  prefixed_multi id m channels (some p) = some (
      handle_multi p id m channels
        (insert_messages back.encode_message back.insert_rows id p m channels))

  unfoldable pub multi_message : Text → Option IrcMessage → List Text → Option (List Action × Bool)
  unfolding prefixed_multi
  multi_message id none channels = some ([], true)
  multi_message id (some m) channels = prefixed_multi id m channels m.prefix

  -- handleMulti
  unfoldable pub receive_multi : Text → Option (List Action × Bool)
  unfolding multi_message
  receive_multi body = elim (back.decode_multi body) [
    | none ↦ some ([], true)
    | some b ↦ multi_message b.id b.message b.channels
  ]

  unfoldable pub config_answer : Text → List Text → Option Text → List Action × Bool
  unfolding handle_config merge_config
  config_answer id fields none = handle_config id fields none false
  config_answer id fields (some body) =
      handle_config id fields (some body) (merge_config back.update_config id body)

  -- handleConfig
  unfoldable pub receive_config : Text → List Action × Bool
  unfolding config_answer
  receive_config body = elim (back.decode_config body) [
    | none ↦ ([], true)
    | some b ↦ config_answer b.id b.fields (back.encode_fields b.fields)
  ]
