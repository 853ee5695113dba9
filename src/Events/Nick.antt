-- ===== src/Events/Nick.antt =====
-- events.go: the nick that we register with, and refusals of a nick we asked for.
use lierc.Base.{
  ℕ, ◌+◌, ◌-◌, Bool, not, ◌&&◌, ◌||◌, [], ◌++◌, Option, none, some, ◌==◌, ltb, leb, if◌then◌else◌,
  Text, text, is_nil, text_eq, length, take, set, is_none,
}
use lierc.Unicode.{Unicode, trim_right}
use lierc.Irc.{Message}
use lierc.Client.{Client, Conn}
use lierc.Events.{Effects, Handler, send, param, param_count}

abbrev pub is_underscore : ℕ → Bool
is_underscore r = r == b'_'

abbrev pub max_nick_tries : ℕ
max_nick_tries = 10

-- c.socket.Close(), if there is a socket.
abbrev pub close_socket : Client → Effects → Effects
close_socket c e = record e { closes = e.closes || not (is_none c.socket) }

unfoldable pub give_up : Text → Client → Effects → Client × Effects
give_up reason c e = (record c { gave_up = reason }, close_socket c e)

unfoldable pub stop : Text → Client → Effects → Client × Effects
stop reason c e = (record c { stopped = reason }, close_socket c e)

module _ ⦃u : Unicode⦄ where
  unfoldable pub underscore_last : Text → Text
  unfolding trim_right
  underscore_last nick =
      let r = u.runes nick in
      let base = length (u.runes (trim_right is_underscore nick)) in
      if leb base 1 then [] else u.of_runes (set r (base - 1) b'_')

  -- The fallback for a fallback that is not allowed: a character less of what it was built on.
  unfoldable pub drop_last : Text → Text
  unfolding trim_right
  drop_last refused =
      let base = u.runes (trim_right is_underscore refused) in
      if leb (length base) 1 then [] else u.of_runes (take (length base - 1) base) ++ text "_"

  abbrev pub not_allowed : Message → Bool
  not_allowed m = text_eq m.command (text "432")

  -- The nick to try next, or "" where the source stops or gives up.
  unfoldable pub next_nick : Client → Message → Text → Text
  next_nick c m refused =
      if not_allowed m
      then drop_last refused
      else if ltb (length (u.runes refused)) (length (u.runes c.reg_nick))
      then underscore_last refused
      else refused ++ text "_"

  abbrev pub refused_nick : Client → Message → Text
  refused_nick c m = if leb 3 (param_count m) then param m 1 else c.reg_nick

  abbrev pub reason_of : Message → Text
  reason_of m = param m (param_count m - 1)

  -- The switch of registrationNickRefused, and what follows it.
  unfoldable pub try_next : Client → Message → Text → Effects → Client × Effects
  try_next c m refused e =
      let next = next_nick c m refused in
      if is_nil next
      then (if not_allowed m
          then stop (text "Couldn't find a nickname the server allows: " ++ reason_of m) c e
          else give_up (text "Couldn't find a free nickname: " ++ reason_of m) c e)
      else (record c { reg_nick = next }, send (text "NICK " ++ next) e)

  unfoldable pub registration_nick_refused : Client → Message → Effects → Client × Effects
  registration_nick_refused c m e =
      let refused = refused_nick c m in
      let c' = record c { reg_tries = c.reg_tries + 1 } in
      if not_allowed m && u.equal_fold refused c.config.nick
      then stop
          (text "Nickname "
            ++ (u.quote refused ++ (text " isn't allowed by the server: " ++ reason_of m)))
          c e
      else if ltb max_nick_tries c'.reg_tries
      then give_up (text "Couldn't find a free nickname: " ++ reason_of m) c' e
      else try_next c' m refused e

  unfoldable pub end_nick_request : Client → Message → Client
  end_nick_request c m =
      if leb 3 (param_count m)
        && not (is_nil c.requested_nick)
        && u.equal_fold (param m 1) c.requested_nick
      then record c { requested_nick = [] }
      else c

  -- Behind the test of the parameters: what depends on c.conn.
  unfoldable pub nick_refused : Option Conn → Client → Message → Effects → Client × Effects
  nick_refused none c m e = (c, e)
  nick_refused (some conn) c m e =
      if is_nil conn.current_nick
      then registration_nick_refused c m e
      else (end_nick_request c m, e)

  unfoldable pub on_nick_refused : Handler
  on_nick_refused now c m e = if ltb (param_count m) 2 then (c, e) else nick_refused c.conn c m e

  unfoldable pub on_nick_change_refused : Handler
  on_nick_change_refused now c m e = elim c.conn [
    | none ↦ (c, e)
    | some conn ↦ if is_nil conn.current_nick then (c, e) else (end_nick_request c m, e)
  ]
