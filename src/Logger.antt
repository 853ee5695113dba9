-- ===== src/Logger.antt =====
-- pkg/logger: which messages are stored, under which channel, and what the handler of the chats topic
-- does with one. The store, the highlight patterns and nsqd are the environment's: what they answer is
-- an argument. A panic on a missing command or parameter is `none`.
pub mod Delivery
pub mod Store
pub mod Highlights
pub mod Lifecycle
pub mod Inbox
pub mod Setup
mod Tests
use lierc.Base.{
  ℕ, Bool, true, false, not, ◌&&◌, ◌||◌, List, [], ◌∷◌, ◌++◌, Option, none, some, ◌==◌, ltb,
  if◌then◌else◌, Text, text, has, text_eq, length, is_nil,
}
use lierc.Irc.{IrcMessage, Prefix}
use lierc.Events.{param_of}

-- logKind
pub data LogKind : Type 0 where
  log_pass : LogKind
  log_skip : LogKind
  log_target : LogKind
  log_status : LogKind

abbrev pub status_channel : Text
status_channel = text "status"

abbrev pub one_of : Text → List Text → Bool
one_of s [] = false
one_of s (t ∷ ts) = text_eq s t || one_of s ts

unfoldable pub is_reaction : IrcMessage → Bool
is_reaction m = has (text "+draft/react") m.tags || has (text "+draft/unreact") m.tags

-- What logType returns behind its switch, by m.Command[0].
unfoldable pub numeric_kind : Text → Option LogKind
numeric_kind [] = none
numeric_kind (c ∷ _) =
    if c == b'4' || (c == b'5' || c == b'9') then some log_status else some log_pass

-- `numerics` are irc-go's constants that logType names, which are of another module.
unfoldable pub log_type : List Text → IrcMessage → Option LogKind
unfolding is_reaction numeric_kind
log_type numerics m =
    if text_eq m.command (text "TAGMSG")
    then (if is_reaction m then some log_target else some log_pass)
    else if one_of m.command
        (text "PRIVMSG" ∷ text "JOIN" ∷ text "PART" ∷ text "TOPIC" ∷ text "MODE" ∷ [])
    then some log_target
    else if text_eq m.command (text "NOTICE")
    then (if m.direct then some log_target else some log_status)
    else if one_of m.command (text "NICK" ∷ text "QUIT" ∷ [])
    then some log_skip
    else if one_of m.command
        (text "ERROR" ∷ text "CONNECT" ∷ text "DISCONNECT" ∷ text "250" ∷ numerics)
    then some log_status
    else numeric_kind m.command

pub record Route : Type 0 where
  pub kind : LogKind
  pub channel : Text
  pub private : Bool

-- routeChat, at the kind. `p` is what m.Prefix points to: newIRCMessage sets it in every message.
unfoldable pub route_kind : Prefix → IrcMessage → LogKind → Option Route
route_kind p m log_target =
    if m.direct && not p.self
    then some (record { kind = log_target; channel = p.name; private = true })
    else elim m.params [
      | [] ↦ none
      | target ∷ _ ↦ some (record { kind = log_target; channel = target; private = false })
    ]
route_kind p m log_status =
    some (record { kind = log_status; channel = status_channel; private = false })
route_kind p m log_pass = some (record { kind = log_pass; channel = []; private = false })
route_kind p m log_skip = some (record { kind = log_skip; channel = []; private = false })

unfoldable pub route_chat : List Text → Prefix → IrcMessage → Option Route
route_chat numerics p m = elim (log_type numerics m) [
  | none ↦ none
  | some kind ↦ route_kind p m kind
]

-- Highlighters.Match, with the connection's pattern, if it has one.
unfoldable pub match_highlight : Option (Text → Bool) → Prefix → IrcMessage → Bool
match_highlight pattern p m =
    if p.self || (not (text_eq m.command (text "PRIVMSG")) || ltb (length m.params) 2)
    then false
    else elim pattern [ none ↦ false | some matches ↦ matches (param_of m.params 1) ]

pub record LoggedMessage : Type 0 where
  pub message : IrcMessage
  pub connection_id : Text
  pub message_id : ℕ
  pub highlight : Bool

-- A call that changes the store or that publishes.
pub data Action : Type 0 where
  inserted_private : Text → Text → ℕ → Action
  inserted : Text → IrcMessage → Text → Bool → Action
  inserted_multi : Text → IrcMessage → List Text → Action
  merged : Text → Text → Action
  published : Text → LoggedMessage → Action

-- What InsertMessage returns: the row's id, ErrNoConnection, or another error.
pub data Stored : Type 0 where
  stored : ℕ → Stored
  no_connection : Stored
  store_failed : Stored

-- publish: a failure of nsqd is only logged.
unfoldable pub publish : Prefix → LoggedMessage → List Action
publish p e =
    published (text "logged") e
    ∷ (if e.highlight || (e.message.direct && not p.self)
        then published (text "highlight") e ∷ []
        else [])

abbrev pub logged : Text → IrcMessage → ℕ → Bool → LoggedMessage
logged id m row highlight = record {
  message = m;
  connection_id = id;
  message_id = row;
  highlight = highlight;
}

-- handleChat from InsertMessage on: what happens, and whether it returns without an error.
unfoldable pub store_chat : Prefix → Text → IrcMessage → Text → Bool → Stored → List Action × Bool
unfolding publish
store_chat p id m channel highlight (stored row) =
    (inserted id m channel highlight ∷ publish p (logged id m row highlight), true)
store_chat p id m channel highlight no_connection = (publish p (logged id m 0 highlight), true)
store_chat p id m channel highlight store_failed = ([], false)

-- Of one delivery: whether InsertPrivate works, and what InsertMessage returns.
pub record Answers : Type 0 where
  pub private_works : Bool
  pub insert : Stored

-- handleChat, of a message that could be read, on its route. A call that failed is no action.
unfoldable pub handle_route :
    Option (Text → Bool) → Prefix → Text → IrcMessage → Answers → Route → List Action × Bool
unfolding publish match_highlight store_chat
handle_route pattern p id m a r =
    let highlight = match_highlight pattern p m in
    let (actions, ok) = store_chat p id m r.channel highlight a.insert in
    elim r.kind [
      | log_skip ↦ ([], true)
      | log_pass ↦ (publish p (logged id m 0 false), true)
      | log_target ↦
          if r.private
          then (if a.private_works
              then (inserted_private id r.channel m.time ∷ actions, ok)
              else ([], false))
          else (actions, ok)
      | log_status ↦
          if r.private
          then (if a.private_works
              then (inserted_private id r.channel m.time ∷ actions, ok)
              else ([], false))
          else (actions, ok)
    ]

unfoldable pub handle_chat :
    List Text
    → Option (Text → Bool)
    → Prefix
    → Text
    → IrcMessage
    → Answers
    → Option (List Action × Bool)
unfolding route_chat handle_route
handle_chat numerics pattern p id m a = elim (route_chat numerics p m) [
  | none ↦ none
  | some r ↦ some (handle_route pattern p id m a r)
]

-- handleMulti, of a message that could be read.
unfoldable pub handle_multi : Prefix → Text → IrcMessage → List Text → Stored → List Action × Bool
unfolding publish
handle_multi p id m channels (stored row) =
    (inserted_multi id m channels ∷ publish p (logged id m row false), true)
handle_multi p id m channels no_connection = (publish p (logged id m 0 false), true)
handle_multi p id m channels store_failed = ([], false)

-- handleConfig, of a change that could be read: its fields, their encoding or none where that fails,
-- and whether MergeConfig works.
unfoldable pub handle_config : Text → List Text → Option Text → Bool → List Action × Bool
handle_config id fields encoded works =
    if is_nil id || is_nil fields then ([], true) else elim encoded [
      | none ↦ ([], true)
      | some body ↦ if works then (merged id body ∷ [], true) else ([], false)
    ]
