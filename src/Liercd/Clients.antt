-- ===== src/Liercd/Clients.antt =====
-- The clients of liercd, from the start to the stop.
use lierc.Base.{
  ℕ, List, [], ◌∷◌, Option, none, some, ◌≡◌, refl, sym, ap, ◌∙◌, Text, get_elem?, length, Entries,
  inl, inr, Option-cases,
}
use mathlib.Core.Path.{subst}
use lierc.Unicode.{Unicode}
use lierc.Irc.{IrcGo, Message}
use lierc.Client.{ConfigChange, MultiMessage}
use lierc.Connection.Steps
use lierc.Connection.Names.{run-id}
use lierc.Events.{Effects}
use lierc.Events.Handlers.{handle}
use lierc.Events.Identity.{handle-id}
use lierc.Manager.{
  Outside, Object, Manager, Queued, message_if, publish_statuses, publish_multi, config_change,
  enqueue,
}
use lierc.Manager.Requests.{update_object, client_send, set_client, later}
use lierc.Manager.Tasks.{Server}
use lierc.Manager.Shutdown.{IsDestroyed, shutdown-IsDestroyed}
use lierc.Manager.Registry.{update-IsNamed}
use lierc.Manager.Registry.Spec.{Same, message_if-Same, publish_statuses-Same}
use lierc.Manager.Registry.Interleaved.{Named, same-Named, step-Named}
use lierc.Manager.Sink.{
  on_line, line_message, publish_changes, publish_multi_if, publish_effects, send_lines, callback,
}
use lierc.Sender.{Sender}
use lierc.Publisher.{Outcome}
use lierc.Liercd.Flushed.{stepped-server}
use lierc.Liercd.{
  Liercd, new_liercd, pass, line_at, move, Op, requests, lines, calls, moves, takes, passes, drain,
  drained, sender_now, publishes, serve, step, run, stop,
}

publish_changes-Same : (cs : List ConfigChange) (m : Manager) → Same (publish_changes cs m) m
unfolding publish_changes config_change enqueue
publish_changes-Same [] m = (refl, refl)
publish_changes-Same (c ∷ cs) m = publish_changes-Same cs (config_change c m)

publish_multi_if-Same : (e : Option MultiMessage) (m : Manager) → Same (publish_multi_if e m) m
unfolding publish_multi_if publish_multi enqueue
publish_multi_if-Same none m = (refl, refl)
publish_multi_if-Same (some e) m = (refl, refl)

publish_effects-Same : (e : Effects) (m : Manager) → Same (publish_effects e m) m
unfolding publish_effects
publish_effects-Same e m =
    let rest = publish_changes-Same e.changes (publish_multi_if e.multi m) in
    let here = publish_multi_if-Same e.multi m in (rest.0 ∙ here.0, rest.1 ∙ here.1)

client_send-attempts : (line : Text) (o : Object) → (client_send line o).0.attempts ≡ o.attempts
unfolding client_send
client_send-attempts line o = elim (Option-cases o.sender) [
  | inl e ↦ rw (e, client_send)
  | inr (s, e) ↦ rw (e, client_send)
]

send_lines-attempts : (ls : List Text) (o : Object) → (send_lines ls o).attempts ≡ o.attempts
unfolding send_lines
send_lines-attempts [] o = refl
send_lines-attempts (l ∷ ls) o =
    send_lines-attempts ls (client_send l o).0 ∙ client_send-attempts l o

-- Object n changes, and keeps its client's id.
update-Named :
    (n : ℕ) (o o' : Object) (m : Manager)
    → get_elem? m.objects n ≡ some o
    → o'.attempts.client.id ≡ o.attempts.client.id
    → Named m
    → Named (update_object n o' m)
unfolding update_object
update-Named n o o' m there same named = update-IsNamed n o o' m.clients m.objects there same named

module _ ⦃u : Unicode⦄ ⦃g : IrcGo⦄ ⦃out : Outside⦄ where
  callback-Named :
      (serial now : ℕ) (message : Message) (n : ℕ) (at : Option Object) (m : Manager)
      → get_elem? m.objects n ≡ at
      → Named m
      → Named (callback serial now message n at m)
  unfolding callback set_client
  callback-Named serial now message n none m there named = named
  callback-Named serial now message n (some o) m there named =
      let r = handle serial now o.attempts.client message in
      let o' = send_lines r.1.sends (set_client r.0 o) in
      let m' = update_object n o' m in
      let same =
        ap (λ a. a.client.id) (send_lines-attempts r.1.sends (set_client r.0 o))
        ∙ handle-id serial now o.attempts.client message in
      same-Named (publish_effects r.1 m') m'.clients m'.objects (publish_effects-Same r.1 m')
        (update-Named n o o' m there same named)

  line_at-Named :
      (now : ℕ) (parsed : Option Message) (at : Option Object) (m : Manager)
      → Named m
      → Named (line_at now parsed at m)
  unfolding line_at on_line
  line_at-Named now parsed none m named = named
  line_at-Named now parsed (some o) m named =
      same-Named (message_if (line_message now parsed o.attempts.client) m) m.clients m.objects
        (message_if-Same (line_message now parsed o.attempts.client) m) named

  move-Named :
      (now n : ℕ) (ops : List Steps.Op) (at : Option Object) (m : Manager)
      → get_elem? m.objects n ≡ at
      → Named m
      → Named (move now n ops at m)
  unfolding move
  move-Named now n ops none m there named = named
  move-Named now n ops (some o) m there named =
      let a = Steps.run out.duration ops o.attempts in
      let o' = record o {
        attempts = a;
        sender = sender_now o.attempts.client.sender a.client.sender o.sender;
      } in
      let told = later (length o.attempts.statuses) a.statuses in
      let same = publish_statuses-Same now told m in
      let kept = same-Named (publish_statuses now told m) m.clients m.objects same named in
      update-Named n o o' (publish_statuses now told m) (ap (λ os. get_elem? os n) same.1 ∙ there)
        (run-id out.duration ops o.attempts) kept

  drain-Named :
      (n : ℕ) (f : Sender → Sender) (at : Option Object) (m : Manager)
      → get_elem? m.objects n ≡ at
      → Named m
      → Named (drain n f at m)
  unfolding drain
  drain-Named n f none m there named = named
  drain-Named n f (some o) m there named =
      update-Named n o (record o { sender = drained f o.sender }) m there refl named

  serve-Named : (op : Op) (s : Server) → Named s.manager → Named (serve op s).manager
  unfolding serve
  serve-Named (requests op) s named = step-Named op s named
  serve-Named (lines now n parsed) s named =
      line_at-Named now parsed (get_elem? s.manager.objects n) s.manager named
  serve-Named (calls serial now n message) s named =
      callback-Named serial now message n (get_elem? s.manager.objects n) s.manager refl named
  serve-Named (moves now n ops) s named =
      move-Named now n ops (get_elem? s.manager.objects n) s.manager refl named
  serve-Named (takes n chosen) s named =
      drain-Named n _ (get_elem? s.manager.objects n) s.manager refl named
  serve-Named (passes n waited works debug) s named =
      drain-Named n _ (get_elem? s.manager.objects n) s.manager refl named
  serve-Named (publishes outcome) s named = named

  module _ (encode : Queued → Option Text) where
    stepped-Named :
        (op : Op) (d : Liercd) → Named d.server.manager → Named (step encode op d).server.manager
    stepped-Named op d named =
        subst (λ (s : Server). Named s.manager) (sym (stepped-server encode op d))
          (serve-Named op d.server named)

    run-Named :
        (ops : List Op) (d : Liercd)
        → Named d.server.manager
        → Named (run encode ops d).server.manager
    unfolding run
    run-Named [] d named = named
    run-Named (op ∷ ops) d named = run-Named ops (step encode op d) (stepped-Named op d named)

    -- In every history of liercd, in which requests come at the same time with lines of the servers
    -- and steps of the clients' attempts and senders, each client is listed under its id; and if it is
    -- then stopped, Shutdown's timer not running out, every client that was listed quits, has no
    -- sender left, and begins no attempt in any history behind it.
    pub stop-IsDestroyed :
        (ops : List Op) (now : ℕ) (during : ℕ → List Steps.Op) (last_rounds outcomes : List Outcome)
        → let d = run encode ops new_liercd in
          let last = (stop encode now during last_rounds outcomes d).0 in
          Named d.server.manager
          × Entries (λ id n. IsDestroyed now during last.server.manager n) d.server.manager.clients
    unfolding stop pass new_liercd
    stop-IsDestroyed ops now during last_rounds outcomes =
        let d = run encode ops new_liercd in
        let named = run-Named ops new_liercd tt in
        (named, shutdown-IsDestroyed now during d.server.manager named)
