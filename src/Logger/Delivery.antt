-- ===== src/Logger/Delivery.antt =====
-- nsqd delivers a message of the chats topic again until its handler returns no error.
use lierc.Base.{
  ℕ, suc, ◌+◌, ◌≤◌, Bool, true, false, not, ◌&&◌, ◌||◌, List, [], ◌∷◌, ◌++◌, Option, some,
  if◌then◌else◌, Text, text, text_eq, ◌≡◌, refl, sym, ◌∙◌, arith, Bool-cases, Option-cases, inl,
  inr,
}
use lierc.Irc.{IrcMessage, Prefix}
use lierc.Logger.{
  LogKind, log_pass, log_skip, log_target, log_status, Route, route_kind, route_chat, log_type,
  Answers, Action, inserted, published, inserted_private, Stored, stored, no_connection,
  store_failed, handle_route, store_chat, publish, match_highlight, LoggedMessage, logged,
}

-- What happens over the deliveries of a message, by what the environment answers in each.
unfoldable pub deliver :
    Option (Text → Bool) → Prefix → Text → IrcMessage → Route → List Answers → List Action
unfolding handle_route
deliver pattern p id m r [] = []
deliver pattern p id m r (a ∷ later) =
    let rest = deliver pattern p id m r later in
    let (actions, ok) = handle_route pattern p id m a r in if ok then actions else actions ++ rest

abbrev pub count : (Action → Bool) → List Action → ℕ
count f [] = 0
count f (a ∷ later) = if f a then suc (count f later) else count f later

-- A row is stored, and the message is sent to the API, or to the notifier.
abbrev pub is_insert : Action → Bool
is_insert (inserted id m channel highlight) = true
is_insert _ = false

abbrev pub is_logged : Action → Bool
is_logged (published topic e) = text_eq topic (text "logged")
is_logged _ = false

abbrev pub is_notified : Action → Bool
is_notified (published topic e) = text_eq topic (text "highlight")
is_notified _ = false

count-append :
    (f : Action → Bool) (xs ys : List Action) → count f (xs ++ ys) ≡ count f xs + count f ys
count-append f [] ys = omega arith
count-append f (x ∷ xs) ys = ground (arith, count-append f xs ys)

abbrev pub is_skip : LogKind → Bool
is_skip log_skip = true
is_skip _ = false

abbrev pub is_target : LogKind → Bool
is_target log_target = true
is_target _ = false

-- The notifier is told nothing.
abbrev IsQuiet : List Action × Bool → Type 0
IsQuiet r = count is_notified r.0 ≡ 0

-- One delivery: at most one row, none with an error, and the API is told exactly if it is handled.
abbrev Once : List Action × Bool → Type 0
Once r =
    (count is_insert r.0 ≤ 1)
    × (count is_logged r.0 ≡ (if r.1 then 1 else 0))
    × (r.1 ≡ false → count is_insert r.0 ≡ 0)

module _ (pattern : Option (Text → Bool)) (p : Prefix) (id : Text) (m : IrcMessage) where
  publish-counts :
      (e : LoggedMessage)
      → (count is_insert (publish p e) ≡ 0) × (count is_logged (publish p e) ≡ 1)
  unfolding publish text_eq
  publish-counts e = elim (Bool-cases (e.highlight || (e.message.direct && not p.self))) [
    | inl on ↦ rw on (refl, refl)
    | inr off ↦ rw off (refl, refl)
  ]

  store_chat-Once :
      (channel : Text) (highlight : Bool) (s : Stored)
      → Once (store_chat p id m channel highlight s)
  unfolding store_chat
  store_chat-Once channel highlight (stored row) =
      ground (arith, publish-counts (logged id m row highlight))
  store_chat-Once channel highlight no_connection =
      ground (arith, publish-counts (logged id m 0 highlight))
  store_chat-Once channel highlight store_failed = ground arith

  with_private-Once :
      (channel : Text) (private works : Bool) (actions : List Action) (ok : Bool)
      → Once (actions, ok)
      → Once (
          if private
          then (if works then (inserted_private id channel m.time ∷ actions, ok) else ([], false))
          else (actions, ok))
  with_private-Once channel true true actions ok h = h
  with_private-Once channel true false actions ok h = (omega arith, refl, λ _. refl)
  with_private-Once channel false works actions ok h = h

  handle_kind-Once :
      (a : Answers) (kind : LogKind) (channel : Text) (private : Bool)
      → is_skip kind ≡ false
      → Once (
          handle_route pattern p id m a
            (record { kind = kind; channel = channel; private = private }))
  unfolding handle_route
  handle_kind-Once a log_pass channel private h =
      ground (arith, publish-counts (logged id m 0 false))
  handle_kind-Once a log_skip channel private h = ground arith
  handle_kind-Once a log_target channel private h =
      let r = store_chat p id m channel (match_highlight pattern p m) a.insert in
      with_private-Once channel private a.private_works r.0 r.1
        (store_chat-Once channel (match_highlight pattern p m) a.insert)
  handle_kind-Once a log_status channel private h =
      let r = store_chat p id m channel (match_highlight pattern p m) a.insert in
      with_private-Once channel private a.private_works r.0 r.1
        (store_chat-Once channel (match_highlight pattern p m) a.insert)

  -- What the deliveries do, one after another, where nsqd may deliver what was handled again.
  abbrev pub delivered : Route → List Answers → List Action
  delivered r [] = []
  delivered r (a ∷ later) = (handle_route pattern p id m a r).0 ++ delivered r later

  -- How many of the deliveries are handled without an error.
  abbrev pub handled_count : Route → List Answers → ℕ
  handled_count r [] = 0
  handled_count r (a ∷ later) =
      if (handle_route pattern p id m a r).1
      then suc (handled_count r later)
      else handled_count r later

  -- However often a message of the chats topic is delivered, also again behind a delivery that was
  -- handled, and whatever the store answers, one that is not skipped is sent to the API exactly as
  -- often as a delivery of it is handled without an error, and no more inserts of it are answered
  -- with a row than that.
  pub deliver_counts :
      (r : Route) (answers : List Answers)
      → is_skip r.kind ≡ false
      → (count is_logged (delivered r answers) ≡ handled_count r answers)
        × (count is_insert (delivered r answers) ≤ handled_count r answers)
  deliver_counts r [] h = (refl, omega arith)
  deliver_counts r (a ∷ later) h =
      let first = handle_kind-Once a r.kind r.channel r.private h in
      let rest = deliver_counts r later h in
      let actions = (handle_route pattern p id m a r).0 in
      ground (
        arith,
        first,
        rest,
        count-append is_insert actions (delivered r later),
        count-append is_logged actions (delivered r later),
      )

abbrev pub IsPrivateIf : Prefix → IrcMessage → Route → Type 0
IsPrivateIf p m r =
    (r.private ≡ (m.direct && (not p.self && is_target r.kind)))
    × (r.private ≡ true → r.channel ≡ p.name)

route_kind-private :
    (p : Prefix) (m : IrcMessage) (kind : LogKind) (r : Route)
    → route_kind p m kind ≡ some r
    → IsPrivateIf p m r
unfolding route_kind
route_kind-private p m log_pass r h = grind arith
route_kind-private p m log_skip r h = grind arith
route_kind-private p m log_status r h = grind arith
route_kind-private p m log_target r h = elim (Bool-cases (m.direct && not p.self)) [
  | inl e ↦ grind arith
  | inr e ↦ grind arith
]

-- If a message has a route, then the route is private exactly if the message is direct, from
-- somebody else, and stored under its target, and a private one is stored under the sender's name.
pub route_chat-private :
    (numerics : List Text) (p : Prefix) (m : IrcMessage) (r : Route)
    → route_chat numerics p m ≡ some r
    → (r.private ≡ (m.direct && (not p.self && is_target r.kind)))
      × (r.private ≡ true → r.channel ≡ p.name)
unfolding route_chat
route_chat-private numerics p m r h = elim (Option-cases (log_type numerics m)) [
  | inl e ↦ ground (arith, e)
  | inr (kind, e) ↦
      let q : route_chat numerics p m ≡ route_kind p m kind = rw (e, route_chat) in
      route_kind-private p m kind r (sym q ∙ h)
]
