-- ===== src/Manager/Raw.antt =====
-- What a raw line from the API does.
use lierc.Base.{
  ℕ, ◌≤◌, Bool, true, false, not, List, [], ◌∷◌, ◌++◌, Option, none, some, ◌≡◌, refl, sym, ◌∙◌, ap,
  List-cases, ◌⊎◌, inl, inr, arith, if◌then◌else◌, Text, get_elem?, All, Bool-cases, append-nil,
  get_elem?-set_self, Option-cases, is_some, text,
}
use lierc.Unicode.{Unicode, trim_right}
use lierc.Irc.{IrcGo}
use lierc.Client.{Client, cap_enabled, request_nick, acked_caps}
use lierc.Sender
use lierc.Sender.{Sender}
use lierc.Manager.{
  Outside, ClientMessage, Queued, chats, Object, Manager, message_if, message, enqueue,
  privmsg_event,
}
use lierc.Manager.Line.{
  is_line_break, has_line_break, raw_line, should_echo, is_message, requested_nick,
}
use lierc.Manager.Requests.{
  Response, ok, raw_object, raw_checked, send_raw, client_send, update_object, set_client, ask_nick,
  own_event,
}

-- What TrimRight drops: the end of the text, which passes the test.
pub trim_right_lem :
    (p : ℕ → Bool) (s : Text)
    → (tail : Text) × (s ≡ trim_right p s ++ tail) × All (λ b. p b ≡ true) tail
unfolding trim_right
trim_right_lem p [] = ([], refl, tt)
trim_right_lem p (x ∷ s) =
    let (tail, q, ok) = trim_right_lem p s in
    elim (List-cases (trim_right p s)) [
      | inl e ↦ elim (Bool-cases (p x)) [
        | inl t ↦ rw e (rw t (x ∷ tail, ap (λ z. x ∷ z) (rw e at q), (t, ok)))
        | inr f ↦ rw e (rw f (tail, ap (λ z. x ∷ z) (rw e at q), ok))
      ]
      | inr (y, ys, e) ↦ rw e (tail, ap (λ z. x ∷ z) (rw e at q), ok)
    ]

abbrev pub echo_of : Option ClientMessage → List Queued
echo_of none = []
echo_of (some e) = chats e ∷ []

message_if-queue :
    (e : Option ClientMessage) (m : Manager) → (message_if e m).queue ≡ m.queue ++ echo_of e
unfolding message_if message enqueue
message_if-queue none m = sym (append-nil m.queue)
message_if-queue (some e) m = refl

message_if-objects : (e : Option ClientMessage) (m : Manager) → (message_if e m).objects ≡ m.objects
unfolding message_if message enqueue
message_if-objects none m = refl
message_if-objects (some e) m = refl

abbrev pub sent_to : Text → Option Sender → Option Sender
sent_to line none = none
sent_to line (some s) = some (Sender.send line s).0

abbrev pub was_queued : Text → Option Sender → Bool
was_queued line none = false
was_queued line (some s) = (Sender.send line s).1

client_send_lem :
    (line : Text) (o : Object)
    → ((client_send line o).0.sender ≡ sent_to line o.sender)
      × ((client_send line o).1 ≡ was_queued line o.sender)
unfolding client_send
client_send_lem line o = elim (Option-cases o.sender) [
  | inl e ↦ rw e (refl, refl)
  | inr (s, e) ↦ rw e (refl, refl)
]

given_if {ℓ} :
    {A : Type ℓ} (b : Bool) (x : Option A) → is_some (if b then x else none) ≡ true → b ≡ true
given_if true x h = refl
given_if false x h = h

should_echo_lem :
    ⦃g : IrcGo⦄ (now : ℕ) (line : Text) (queued acked : Bool)
    → should_echo now line queued acked ≡ true
    → (queued ≡ true) × (is_message now line ≡ true) × (acked ≡ false)
unfolding should_echo
should_echo_lem now line queued acked h = ground arith

module _ ⦃u : Unicode⦄ ⦃g : IrcGo⦄ ⦃out : Outside⦄ where
  ask_nick-caps :
      (nick : Option Text) (c : Client) (name : Text)
      → cap_enabled name (ask_nick nick c) ≡ cap_enabled name c
  unfolding ask_nick request_nick cap_enabled acked_caps
  ask_nick-caps none c name = refl
  ask_nick-caps (some nick) c name = refl

  -- What a line that was passed on did: `line` is the body without the line breaks at its end, and
  -- has none left; it went to the client's sender, once, and `echo` is what was queued for nsqd.
  pub record IsPassed (now n : ℕ) (body : Text) (o : Object) (m : Manager) (r : Manager × Response)
      (line tail : Text) (o' : Object) (echo : Option ClientMessage) : Type 0 where
    pub whole : body ≡ line ++ tail
    pub tail_breaks : All (λ b. is_line_break b ≡ true) tail
    pub one_line : has_line_break line ≡ false
    pub registered : o.attempts.client.registered ≡ true
    pub kept : get_elem? r.0.objects n ≡ some o'
    pub sent : o'.sender ≡ sent_to line o.sender
    pub queued : r.0.queue ≡ m.queue ++ echo_of echo
    pub echoed :
        (is_some echo ≡ true)
        → (was_queued line o.sender ≡ true)
          × (is_message now line ≡ true)
          × (cap_enabled (text "echo-message") o.attempts.client ≡ false)

  send_raw-IsPassed :
      (now n : ℕ) (body : Text) (o : Object) (m : Manager)
      → get_elem? m.objects n ≡ some o
      → has_line_break (trim_right is_line_break body) ≡ false
      → o.attempts.client.registered ≡ true
      → let line = trim_right is_line_break body in
        let r = send_raw now line o in
        IsPassed now n body o m
          (message_if r.1 (update_object n r.0 m), ok [])
          line
          (trim_right_lem is_line_break body).0
          r.0
          r.1
  unfolding send_raw update_object set_client
  send_raw-IsPassed now n body o m there fits reg =
      let line = trim_right is_line_break body in
      let r = send_raw now line o in
      let o1 = set_client (ask_nick (requested_nick now line) o.attempts.client) o in
      record {
        whole = (trim_right_lem is_line_break body).1;
        tail_breaks = (trim_right_lem is_line_break body).2;
        one_line = fits;
        registered = reg;
        kept =
            ap (λ os. get_elem? os n) (message_if-objects r.1 (update_object n r.0 m))
            ∙ get_elem?-set_self m.objects n r.0 o there;
        sent = (client_send_lem line o1).0;
        queued = message_if-queue r.1 (update_object n r.0 m);
        echoed = λ h.
            let q = client_send_lem line o1 in
            let caps =
              ask_nick-caps (requested_nick now line) o.attempts.client (text "echo-message") in
            let asked : should_echo now line (client_send line o1).1
                  (cap_enabled (text "echo-message") o1.attempts.client)
                ≡ true =
              given_if
                (should_echo now line (client_send line o1).1
                  (cap_enabled (text "echo-message") o1.attempts.client))
                (own_event (privmsg_event now o1.attempts.client line)) h in
            let e =
              should_echo_lem now line (client_send line o1).1
                (cap_enabled (text "echo-message") o1.attempts.client) asked in
            (sym q.1 ∙ e.0, e.1, sym caps ∙ e.2);
      }

  -- Nothing happens and the code is an error's, or a line is passed on.
  abbrev pub RawOutcome : ℕ → ℕ → Option Text → Object → Manager → Manager × Response → Type 0
  RawOutcome now n body o m r =
      ((r.0 ≡ m) × (400 ≤ r.1.code))
      ⊎ ((b line tail : Text) × (o' : Object) × (echo : Option ClientMessage) × (body ≡ some b)
          × (r.1.code ≡ 200)
          × IsPassed now n b o m r line tail o' echo)

  raw_checked_lem :
      (now n : ℕ) (b : Text) (fits registered : Bool) (o : Object) (m : Manager)
      → get_elem? m.objects n ≡ some o
      → not (has_line_break (trim_right is_line_break b)) ≡ fits
      → o.attempts.client.registered ≡ registered
      → RawOutcome now n
          (some b)
          o
          m
          (raw_checked now n (trim_right is_line_break b) fits registered o m)
  unfolding raw_checked
  raw_checked_lem now n b false registered o m there h reg = inl (refl, omega arith)
  raw_checked_lem now n b true false o m there h reg = inl (refl, omega arith)
  raw_checked_lem now n b true true o m there h reg =
      let line = trim_right is_line_break b in
      let r = send_raw now line o in
      inr (
        b,
        line,
        (trim_right_lem is_line_break b).0,
        r.0,
        r.1,
        refl,
        refl,
        send_raw-IsPassed now n b o m there (ground arith) reg,
      )

  -- For a raw request to a listed client: either the manager stays as it is and the code is 400 or
  -- more, or the code is 200, the client is registered, and the body without the line breaks at its
  -- end, which has none left, goes to the client's sender once; an echo is queued for nsqd only if
  -- the sender queued the line, the line is a PRIVMSG or NOTICE, and echo-message is not acked.
  pub raw_object-RawOutcome :
      (now n : ℕ) (body : Option Text) (o : Object) (m : Manager)
      → get_elem? m.objects n ≡ some o
      → RawOutcome now n body o m (raw_object now n body o m)
  unfolding raw_object raw_line
  raw_object-RawOutcome now n none o m there = inl (refl, omega arith)
  raw_object-RawOutcome now n (some b) o m there =
      raw_checked_lem now n b (not (has_line_break (trim_right is_line_break b)))
        o.attempts.client.registered o m there refl refl
