-- ===== src/Logger/Inbox/Private.antt =====
-- A private message on its way from the server's line to the store and the notifier.
use lierc.Base.{
  ℕ, Bool, true, false, not, ◌&&◌, ◌||◌, List, [], ◌∷◌, Option, some, ◌≡◌, ◌≢◌, refl, sym, ap, ◌∙◌,
  arith, if◌then◌else◌, suc, ltb, length, Text, Map, text, text_eq, text_eq_iff, text_eq_refl,
  is_nil, Bool-cases, inl, inr,
}
use mathlib.Core.Path.{subst}
use lierc.Unicode.{Unicode}
use lierc.Irc.{IrcGo, IrcMessage, Prefix, source_prefix, new_irc_message}
use lierc.Client.{Client, current_nick}
use lierc.Events.{annotate, annotate_with}
use lierc.Manager.{ClientMessage}
use lierc.Manager.Sink.{line_message}
use lierc.Logger.{
  Action, inserted_private, inserted, published, logged, match_highlight, route_chat, log_type,
  route_kind, LoggedMessage, stored, handle_route, publish,
}
use lierc.Logger.Store.{scanned, log_row, insert_message, stored_row}
use lierc.Logger.Inbox.{Backend, receive_chat, prefixed_chat, route_message, chat_answers}

some_inj : (a b : ClientMessage) → ◌≡◌ {A = Option ClientMessage} (some a) (some b) → a ≡ b
some_inj a b h = cc h

module _ ⦃u : Unicode⦄ ⦃g : IrcGo⦄ where
  -- The message that a PRIVMSG to our nick becomes.
  abbrev pub direct_message : ℕ → Client → Text → List Text → IrcMessage
  direct_message now c source rest = record {
    prefix = some (source_prefix source);
    tags =
        g.all_tags
          (record { source = source; command = text "PRIVMSG"; params = current_nick c ∷ rest });
    command = text "PRIVMSG";
    time = now;
    params = current_nick c ∷ rest;
    direct = true;
  }

  source_prefix_self : (source : Text) → (source_prefix source).self ≡ false
  source_prefix_self source = elim (Bool-cases (is_nil source)) [
    | inl e ↦ rw e refl
    | inr e ↦ rw e refl
  ]

  some_params : (n : ℕ) → ltb 0 (suc n) ≡ true
  some_params n = ground arith

  annotate_with-direct :
      (now : ℕ) (c : Client) (p : Prefix) (tags : Map Text) (rest : List Text)
      → text_eq p.name (current_nick c) ≡ false
      → p.self ≡ false
      → annotate_with p c (record {
        prefix = some p;
        tags = tags;
        command = text "PRIVMSG";
        time = now;
        params = current_nick c ∷ rest;
        direct = false;
      })
        ≡ record {
          prefix = some p;
          tags = tags;
          command = text "PRIVMSG";
          time = now;
          params = current_nick c ∷ rest;
          direct = true;
        }
  unfolding annotate_with text_eq
  annotate_with-direct now c p tags rest h k =
      let other = not (is_nil p.name) && text_eq p.user c.user && text_eq p.name (current_nick c) in
      let none_of_ours : other ≡ p.self = ground (arith, h, k) in
      rw (text_eq_refl (current_nick c), some_params (length rest))
        (ap
          (λ (b : Bool). record {
            prefix = some (record p { self = b });
            tags = tags;
            command = text "PRIVMSG";
            time = now;
            params = current_nick c ∷ rest;
            direct = true;
          })
          none_of_ours)

  annotate-direct :
      (now : ℕ) (c : Client) (source : Text) (rest : List Text)
      → text_eq (source_prefix source).name (current_nick c) ≡ false
      → annotate c (
          new_irc_message now
            (record { source = source; command = text "PRIVMSG"; params = current_nick c ∷ rest }))
        ≡ direct_message now c source rest
  unfolding annotate new_irc_message
  annotate-direct now c source rest h =
      annotate_with-direct now c (source_prefix source) _ rest h (source_prefix_self source)

  abbrev direct_event : ℕ → Client → Text → List Text → ClientMessage
  direct_event now c source rest = record { id = c.id; message = direct_message now c source rest }

  direct_event-eq :
      (now : ℕ) (c : Client) (source : Text) (rest : List Text) (e : ClientMessage)
      → text_eq (source_prefix source).name (current_nick c) ≡ false
      → line_message now
          (some
            (record { source = source; command = text "PRIVMSG"; params = current_nick c ∷ rest }))
          c
        ≡ some e
      → direct_event now c source rest ≡ e
  unfolding line_message
  direct_event-eq now c source rest e theirs line = some_inj _ _ (
      ap (λ (m : IrcMessage). some (record { id = c.id; message = m }))
        (sym (annotate-direct now c source rest theirs))
      ∙ line)

  module _ (back : Backend) (numerics : List Text) (patterns : Text → Option (Text → Bool)) where
    -- What the logger does with a private message of somebody else that it stores.
    abbrev pub Taken : Text → Prefix → IrcMessage → ℕ → Option (List Action × Bool) → Type 0
    Taken id p m row result =
        let highlight = match_highlight (patterns id) p m in
        let e = logged id m row highlight in
        result
        ≡ some (
          inserted_private id p.name m.time
              ∷ inserted id m p.name highlight
              ∷ published (text "logged") e
              ∷ published (text "highlight") e
              ∷ [],
          true,
        )

    publish-direct :
        (p : Prefix) (e : LoggedMessage)
        → e.message.direct ≡ true
        → p.self ≡ false
        → publish p e ≡ published (text "logged") e ∷ published (text "highlight") e ∷ []
    unfolding publish
    publish-direct p e direct self =
        let told : (e.highlight || (e.message.direct && not p.self)) ≡ true =
          ground (arith, direct, self) in
        ap
          (λ (b : Bool).
            published (text "logged") e ∷ (if b then published (text "highlight") e ∷ [] else []))
          told

    answers-stored :
        (id : Text) (p : Prefix) (m : IrcMessage) (row : ℕ) (v channel : Text) (highlight : Bool)
        → back.encode_message m ≡ some v
        → back.insert_row (log_row back.encode_message id p m channel highlight v) ≡ scanned row
        → insert_message back.encode_message back.insert_row id p m channel highlight ≡ stored row
    unfolding insert_message
    answers-stored id p m row v channel highlight enc ins =
        rw (enc, insert_message) (ap stored_row ins)

    abbrev from_sender : Map Text → ℕ → List Text → Prefix → IrcMessage
    from_sender tags now params p = record {
      prefix = some p;
      tags = tags;
      command = text "PRIVMSG";
      time = now;
      params = params;
      direct = true;
    }

    abbrev Works : Text → Map Text → ℕ → List Text → ℕ → Text → Prefix → Type 0
    Works id tags now params row v p =
        let m = from_sender tags now params p in
        back.encode_message m ≡ some v
        → back.upsert_private (record { connection = id; nick = p.name; time = now }) ≡ true
        → back.insert_row
            (log_row back.encode_message id p m p.name (match_highlight (patterns id) p m) v)
          ≡ scanned row
        → Taken id p m row (prefixed_chat back numerics (patterns id) id m (some p))

    prefixed_chat-Works :
        (id name user server : Text) (tags : Map Text) (now : ℕ) (params : List Text) (row : ℕ)
        (v : Text)
        → Works id tags now params row v
            (record { name = name; user = user; server = server; self = false })
    unfolding prefixed_chat route_message route_chat log_type route_kind text_eq chat_answers
        handle_route
    prefixed_chat-Works id name user server tags now params row v enc up ins =
        let p : Prefix = record { name = name; user = user; server = server; self = false } in
        let m = from_sender tags now params p in
        rw (up, answers-stored id p m row v name (match_highlight (patterns id) p m) enc ins)
          (ap
            (λ (later : List Action). some (
              inserted_private id name now
                  ∷ inserted id m name (match_highlight (patterns id) p m)
                  ∷ later,
              true,
            ))
            (publish-direct p (logged id m row (match_highlight (patterns id) p m)) refl refl))

    sender-Works :
        (id : Text) (tags : Map Text) (now : ℕ) (params : List Text) (row : ℕ) (v : Text)
        (p : Prefix)
        → p.self ≡ false
        → Works id tags now params row v p
    sender-Works id tags now params row v p self =
        subst (Works id tags now params row v) (ap (λ (b : Bool). record p { self = b }) (sym self))
          (prefixed_chat-Works id p.name p.user p.server tags now params row v)

    -- If a line of the server is a PRIVMSG to the client's nick from a sender of another name, the
    -- logger decodes what onLine publishes of it, and the encoding and the two statements of the store
    -- work, then the logger records the conversation with the sender, stores the message under the
    -- sender's name, and publishes it with its row to the logged and to the highlight topic, in this
    -- order.
    pub receive_chat-Taken :
        (now : ℕ) (c : Client) (source : Text) (rest : List Text) (e : ClientMessage)
        (body v : Text) (row : ℕ)
        → let p = source_prefix source in
          p.name ≢ current_nick c
          → line_message now
              (some (record {
                source = source;
                command = text "PRIVMSG";
                params = current_nick c ∷ rest;
              }))
              c
            ≡ some e
          → back.decode_chat body ≡ some (record { id = e.id; message = some e.message })
          → back.encode_message e.message ≡ some v
          → back.upsert_private (record { connection = c.id; nick = p.name; time = now }) ≡ true
          → back.insert_row (
              log_row back.encode_message c.id p e.message p.name
                (match_highlight (patterns c.id) p e.message)
                v)
            ≡ scanned row
          → Taken c.id p e.message row (receive_chat back numerics patterns body)
    unfolding receive_chat
    receive_chat-Taken now c source rest e body v row other line =
        let p = source_prefix source in
        let theirs : text_eq p.name (current_nick c) ≡ false =
          ground (arith, other, text_eq_iff p.name (current_nick c)) in
        let is : direct_event now c source rest ≡ e =
          direct_event-eq now c source rest e theirs line in
        subst
          (λ (e : ClientMessage).
            back.decode_chat body ≡ some (record { id = e.id; message = some e.message })
            → back.encode_message e.message ≡ some v
            → back.upsert_private (record { connection = c.id; nick = p.name; time = now }) ≡ true
            → back.insert_row (
                log_row back.encode_message c.id p e.message p.name
                  (match_highlight (patterns c.id) p e.message) v)
              ≡ scanned row
            → Taken c.id p e.message row (receive_chat back numerics patterns body))
          is
          (λ decoded enc up ins.
            rw (decoded, receive_chat)
              (sender-Works c.id _ now (current_nick c ∷ rest) row v p (source_prefix_self source)
                enc up ins))
