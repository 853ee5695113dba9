-- ===== src/Events/Registration.antt =====
-- Registering under a fallback nick: every refusal is answered or ends the attempt, and no server
-- can keep the attempt going for ever.
use lierc.Base.{
  ℕ, ◌+◌, ◌≤◌, ◌<◌, Bool, true, false, not, ◌&&◌, ◌||◌, List, [], ◌∷◌, ◌++◌, Option, none, some,
  ◌≡◌, ◌≢◌, refl, ◌∙◌, arith, inl, inr, Text, text, is_nil, is_none, length, length-set, All,
  Bool-cases, ltb, leb,
}
use lierc.Unicode.{Unicode, IsUnicode, trim_right}
use lierc.Irc.{Message}
use lierc.Client.{Client, Conn}
use lierc.Events.{Effects, no_effects, param_count}
use lierc.Events.Nick.{
  give_up, stop, underscore_last, next_nick, try_next, refused_nick, registration_nick_refused,
  on_nick_refused, is_underscore, max_nick_tries, not_allowed, nick_refused, end_nick_request,
}

-- The connection exists and the server has not sent 001 yet.
abbrev pub IsRegistering : Client → Type 0
IsRegistering c = (conn : Conn) × (c.conn ≡ some conn) × (conn.current_nick ≡ [])

-- The attempt was stopped or given up.
abbrev pub ended : Client → Bool
ended c = not (is_nil c.stopped) || not (is_nil c.gave_up)

-- How a refusal is answered: the attempt ends, and the socket is closed if there is one; or the
-- next nick is sent, and one try more is counted.
pub data Answer (c : Client) (r : Client × Effects) : Type 0 where
  ends : ended r.0 ≡ true → r.1.sends ≡ [] → r.1.closes ≡ not (is_none c.socket) → Answer c r
  tries :
      r.0.reg_tries ≡ c.reg_tries + 1
      → r.0.reg_tries ≤ max_nick_tries
      → r.0.conn ≡ c.conn
      → r.1.sends ≡ (text "NICK " ++ r.0.reg_nick) ∷ []
      → r.0.reg_nick ≢ []
      → Answer c r

-- The client while it answers, with one try more counted.
abbrev counted : Client → Client
counted c = record c { reg_tries = c.reg_tries + 1 }

stop-Answer : (c : Client) (b : ℕ) (reason : Text) → Answer c (stop (b ∷ reason) c no_effects)
unfolding stop
stop-Answer c b reason = ends refl refl refl

stop-counted-Answer :
    (c : Client) (b : ℕ) (reason : Text) → Answer c (stop (b ∷ reason) (counted c) no_effects)
unfolding stop
stop-counted-Answer c b reason = ends refl refl refl

give_up-Answer :
    (c : Client) (b : ℕ) (reason : Text) → Answer c (give_up (b ∷ reason) (counted c) no_effects)
unfolding give_up
give_up-Answer c b reason = ends (ground arith) refl refl

module _ ⦃u : Unicode⦄ where
  try_next-Answer :
      (c : Client) (m : Message) (refused : Text)
      → c.reg_tries + 1 ≤ max_nick_tries
      → Answer c (try_next (counted c) m refused no_effects)
  unfolding try_next
  try_next-Answer c m refused h = elim (Bool-cases (is_nil (next_nick (counted c) m refused))) [
    | inl none_left ↦ elim (Bool-cases (not_allowed m)) [
      | inl e ↦ rw (none_left, e) (stop-counted-Answer c _ _)
      | inr e ↦ rw (none_left, e) (give_up-Answer c _ _)
    ]
    | inr more ↦ rw more (tries refl h refl refl (λ e. ground arith))
  ]

  -- Every refusal while registering is answered or ends the attempt.
  pub registration_nick_refused-Answer :
      (c : Client) (m : Message) → Answer c (registration_nick_refused c m no_effects)
  unfolding registration_nick_refused
  registration_nick_refused-Answer c m =
      elim (Bool-cases (not_allowed m && u.equal_fold (refused_nick c m) c.config.nick)) [
        | inl e ↦ rw e (stop-Answer c _ _)
        | inr e ↦ elim (Bool-cases (ltb max_nick_tries (c.reg_tries + 1))) [
          | inl many ↦ rw (e, many) (give_up-Answer c _ _)
          | inr few ↦ rw (e, few) (try_next-Answer c m (refused_nick c m) (ground arith))
        ]
      ]

  nick_refused-Answer :
      (o : Option Conn) (c : Client) (m : Message) (conn : Conn)
      → o ≡ some conn
      → conn.current_nick ≡ []
      → Answer c (nick_refused o c m no_effects)
  unfolding nick_refused
  nick_refused-Answer none c m conn here before = absurd (ground arith)
  nick_refused-Answer (some k) c m conn here before =
      let nameless : is_nil k.current_nick ≡ true = ground arith in
      rw nameless (registration_nick_refused-Answer c m)

  -- A refusal with at least two parameters, while registering, either ends the attempt, sending
  -- nothing and closing the socket if there is one, or sends just "NICK" with a next nick that is
  -- not empty and counts one of at most ten tries.
  pub on_nick_refused-Answer :
      (now : ℕ) (c : Client) (m : Message)
      → IsRegistering c
      → 2 ≤ param_count m
      → Answer c (on_nick_refused now c m no_effects)
  unfolding on_nick_refused
  on_nick_refused-Answer now c m (conn, here, before) long =
      let reads : ltb (param_count m) 2 ≡ false = ground arith in
      rw reads (nick_refused-Answer c.conn c m conn here before)

  -- The client after a series of refusals.
  unfoldable pub refusals : ℕ → List Message → Client → Client
  refusals now [] c = c
  refusals now (m ∷ ms) c = refusals now ms (on_nick_refused now c m no_effects).0

  try_next-ended :
      (c : Client) (m : Message) (refused : Text)
      → ended c ≡ true
      → ended (try_next c m refused no_effects).0 ≡ true
  unfolding try_next stop give_up
  try_next-ended c m refused h = ground arith

  registration_nick_refused-ended :
      (c : Client) (m : Message)
      → ended c ≡ true
      → ended (registration_nick_refused c m no_effects).0 ≡ true
  unfolding registration_nick_refused stop give_up
  registration_nick_refused-ended c m h =
      ground (arith, try_next-ended (counted c) m (refused_nick c m) h)

  keeps_ended :
      (now : ℕ) (c : Client) (m : Message)
      → ended c ≡ true
      → ended (on_nick_refused now c m no_effects).0 ≡ true
  unfolding on_nick_refused nick_refused end_nick_request
  keeps_ended now c m h = ground (arith, registration_nick_refused-ended c m h)

  refusals-ended :
      (now : ℕ) (ms : List Message) (c : Client) → ended c ≡ true → ended (refusals now ms c) ≡ true
  unfolding refusals
  refusals-ended now [] c h = h
  refusals-ended now (m ∷ ms) c h =
      refusals-ended now ms (on_nick_refused now c m no_effects).0 (keeps_ended now c m h)

  -- A registering client that has k tries behind it, k at most ten, and gets more than 10 - k
  -- refusals, each with two parameters at least, has given up or been stopped by the last one.
  pub refusals_end :
      (now : ℕ) (ms : List Message) (c : Client)
      → IsRegistering c
      → All (λ m. 2 ≤ param_count m) ms
      → c.reg_tries ≤ max_nick_tries
      → max_nick_tries < c.reg_tries + length ms
      → ended (refusals now ms c) ≡ true
  unfolding refusals
  refusals_end now [] c reg long few many = absurd (omega arith)
  refusals_end now (m ∷ ms) c reg long few many = elim (on_nick_refused-Answer now c m reg long.0) [
    | ends e s cl ↦ refusals-ended now ms (on_nick_refused now c m no_effects).0 e
    | tries t b same s nn ↦
        refusals_end now ms (on_nick_refused now c m no_effects).0 (reg.0, same ∙ reg.1, reg.2)
          long.1 b (omega arith)
  ]

  -- If underscoreLast returns a nick, it is as many characters long as the one given.
  pub length-underscore_last :
      IsUnicode u
      → (nick : Text) → underscore_last nick ≢ []
      → length (u.runes (underscore_last nick)) ≡ length (u.runes nick)
  unfolding underscore_last
  length-underscore_last ok nick h =
      elim (Bool-cases (leb (length (u.runes (trim_right is_underscore nick))) 1)) [
        | inl e ↦ absurd (h (rw e))
        | inr e ↦ rw e (ok.length_runes _ ∙ length-set (u.runes nick) _ b'_')
      ]
