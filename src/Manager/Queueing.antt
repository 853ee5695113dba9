-- ===== src/Manager/Queueing.antt =====
-- Whatever the manager does, it only adds to what it queues.
use lierc.Base.{
  ℕ, Bool, true, false, List, [], ◌∷◌, ◌++◌, Option, none, some, ◌≡◌, refl, sym, ap, ◌∙◌, Text, Map,
  get_elem?, append-nil, append_assoc,
}
use lierc.Unicode.{Unicode}
use lierc.Irc.{IrcGo, Message}
use lierc.Config.{IrcConfig}
use lierc.Client.{Client, MultiMessage, ConfigChange}
use lierc.Connection.{Status, start}
use lierc.Connection.Steps
use lierc.Connection.Steps.{take_out}
use lierc.Events.{Effects}
use lierc.Events.Handlers.{handle}
use lierc.Manager.{
  Outside, ClientMessage, Queued, chats, multi, config, Object, Manager, message_if, message,
  enqueue, publish_multi, config_change, publish_status, publish_statuses, connect_event,
  delete_event, get_client, remove_client, create_event, add_client,
}
use lierc.Manager.Requests.{
  find_object, add_new, destroy_pointed, update_object, raw_by_id, raw_object, raw_checked,
  send_raw, set_client,
}
use lierc.Manager.Line.{raw_line}
use lierc.Manager.Tasks
use lierc.Manager.Tasks.{Server, begin_create, begin_destroy, destroy_task, go_on}
use lierc.Manager.Shutdown.{shut, shut_all, shutdown}
use lierc.Manager.Sink.{
  on_line, publish_changes, publish_multi_if, publish_effects, callback, line_message, send_lines,
}

-- The second manager has queued what the first one had, and then more.
abbrev pub Grows : Manager → Manager → Type 0
Grows m m' = (new : List Queued) × (m'.queue ≡ m.queue ++ new)

pub Grows-refl : (m : Manager) → Grows m m
Grows-refl m = ([], sym (append-nil m.queue))

pub Grows-trans : (a b c : Manager) → Grows a b → Grows b c → Grows a c
Grows-trans a b c (new, e) (newer, f) =
    (new ++ newer, f ∙ ap (λ q. q ++ newer) e ∙ append_assoc a.queue new newer)

message_if-Grows : (e : Option ClientMessage) (m : Manager) → Grows m (message_if e m)
unfolding message_if message enqueue
message_if-Grows none m = Grows-refl m
message_if-Grows (some e) m = (chats e ∷ [], refl)

publish_changes-Grows : (cs : List ConfigChange) (m : Manager) → Grows m (publish_changes cs m)
unfolding publish_changes config_change enqueue
publish_changes-Grows [] m = Grows-refl m
publish_changes-Grows (c ∷ cs) m =
    Grows-trans m (config_change c m) (publish_changes cs (config_change c m)) (config c ∷ [], refl)
      (publish_changes-Grows cs (config_change c m))

publish_multi_if-Grows : (e : Option MultiMessage) (m : Manager) → Grows m (publish_multi_if e m)
unfolding publish_multi_if publish_multi enqueue
publish_multi_if-Grows none m = Grows-refl m
publish_multi_if-Grows (some e) m = (multi e ∷ [], refl)

publish_effects-Grows : (e : Effects) (m : Manager) → Grows m (publish_effects e m)
unfolding publish_effects
publish_effects-Grows e m =
    Grows-trans m (publish_multi_if e.multi m) (publish_effects e m)
      (publish_multi_if-Grows e.multi m)
      (publish_changes-Grows e.changes (publish_multi_if e.multi m))

module _ ⦃g : IrcGo⦄ where
  pub on_line-Grows :
      (now : ℕ) (parsed : Option Message) (c : Client) (m : Manager)
      → Grows m (on_line now parsed c m)
  unfolding on_line
  on_line-Grows now parsed c m = message_if-Grows (line_message now parsed c) m

  pub publish_statuses-Grows :
      (now : ℕ) (ss : List Status) (m : Manager) → Grows m (publish_statuses now ss m)
  unfolding publish_statuses publish_status
  publish_statuses-Grows now [] m = Grows-refl m
  publish_statuses-Grows now (s ∷ ss) m =
      Grows-trans m (publish_status now s m) (publish_statuses now ss (publish_status now s m))
        (message_if-Grows (connect_event now s) m)
        (publish_statuses-Grows now ss (publish_status now s m))

module _ ⦃u : Unicode⦄ ⦃g : IrcGo⦄ where
  pub callback-Grows :
      (serial now : ℕ) (message : Message) (n : ℕ) (at : Option Object) (m : Manager)
      → Grows m (callback serial now message n at m)
  unfolding callback update_object
  callback-Grows serial now message n none m = Grows-refl m
  callback-Grows serial now message n (some o) m =
      let r = handle serial now o.attempts.client message in
      publish_effects-Grows r.1 (update_object n (send_lines r.1.sends (set_client r.0 o)) m)

module _ ⦃u : Unicode⦄ ⦃g : IrcGo⦄ ⦃out : Outside⦄ where
  add_new-Grows : (now : ℕ) (id : Text) (c : IrcConfig) (m : Manager) → Grows m (add_new now id c m)
  unfolding add_new add_client
  add_new-Grows now id c m =
      let a = start c id out.hostname in
      let published = publish_statuses now a.statuses _ in
      Grows-trans m published (message_if (create_event now a.client) published)
        (publish_statuses-Grows now a.statuses _)
        (message_if-Grows (create_event now a.client) published)

  destroy_pointed-Grows :
      (now n : ℕ) (during : List Steps.Op) (o : Object) (m : Manager)
      → Grows m (destroy_pointed now n during o m)
  unfolding destroy_pointed update_object
  destroy_pointed-Grows now n during o m = publish_statuses-Grows now _ m

  raw_checked-Grows :
      (now n : ℕ) (line : Text) (fits registered : Bool) (o : Object) (m : Manager)
      → Grows m (raw_checked now n line fits registered o m).0
  unfolding raw_checked update_object
  raw_checked-Grows now n line false registered o m = Grows-refl m
  raw_checked-Grows now n line true false o m = Grows-refl m
  raw_checked-Grows now n line true true o m = message_if-Grows (send_raw now line o).1 _

  raw_by_id-Grows :
      (now : ℕ) (body : Option Text) (found : Option (ℕ × Object)) (m : Manager)
      → Grows m (raw_by_id now body found m).0
  unfolding raw_by_id raw_object
  raw_by_id-Grows now body none m = Grows-refl m
  raw_by_id-Grows now none (some (n, o)) m = Grows-refl m
  raw_by_id-Grows now (some body) (some (n, o)) m =
      raw_checked-Grows now n (raw_line body).0 (raw_line body).1 o.attempts.client.registered o m

  go_on-Grows :
      (now : ℕ) (during : List Steps.Op) (found : Option (Tasks.Task × List Tasks.Task))
      (s : Server)
      → Grows s.manager (go_on now during found s).manager
  unfolding go_on destroy_task remove_client
  go_on-Grows now during none s = Grows-refl s.manager
  go_on-Grows now during (some (Tasks.to_add id c, rest)) s = add_new-Grows now id c s.manager
  go_on-Grows now during (some (Tasks.to_destroy n, rest)) s =
      elim (get_elem? s.manager.objects n)
        as (λ at.
          Grows s.manager (destroy_task now during n at (record s { tasks = rest })).manager) [
            | none ↦ Grows-refl s.manager
            | some o ↦ destroy_pointed-Grows now n during o s.manager
          ]
  go_on-Grows now during (some (Tasks.to_remove id, rest)) s = Grows-refl s.manager

  begin_create-Grows :
      (id : Text) (c : Option IrcConfig) (found : Option ℕ) (s : Server)
      → Grows s.manager (begin_create id c found s).manager
  unfolding begin_create
  begin_create-Grows id none found s = Grows-refl s.manager
  begin_create-Grows id (some c) (some n) s = Grows-refl s.manager
  begin_create-Grows id (some c) none s = Grows-refl s.manager

  begin_destroy-Grows :
      (now : ℕ) (found : Option (ℕ × Object)) (s : Server)
      → Grows s.manager (begin_destroy now found s).manager
  unfolding begin_destroy
  begin_destroy-Grows now none s = Grows-refl s.manager
  begin_destroy-Grows now (some (n, o)) s =
      message_if-Grows (delete_event now o.attempts.client) s.manager

  pub step-Grows : (op : Tasks.Op) (s : Server) → Grows s.manager (Tasks.step op s).manager
  unfolding Tasks.step
  step-Grows (Tasks.creates id c) s = begin_create-Grows id c (get_client id s.manager) s
  step-Grows (Tasks.destroys now id) s = begin_destroy-Grows now (find_object id s.manager) s
  step-Grows (Tasks.raws now id body) s =
      raw_by_id-Grows now body (find_object id s.manager) s.manager
  step-Grows (Tasks.continues i now during) s = go_on-Grows now during (take_out i s.tasks) s

  module _ (now : ℕ) (during : ℕ → List Steps.Op) where
    shut-Grows : (n : ℕ) (at : Option Object) (m : Manager) → Grows m (shut now during n at m)
    unfolding shut
    shut-Grows n none m = Grows-refl m
    shut-Grows n (some o) m = destroy_pointed-Grows now n (during n) o m

    shut_all-Grows : (rest : Map ℕ) (m : Manager) → Grows m (shut_all now during rest m)
    unfolding shut_all
    shut_all-Grows [] m = Grows-refl m
    shut_all-Grows ((id, n) ∷ rest) m =
        let next = shut now during n (get_elem? m.objects n) m in
        Grows-trans m next (shut_all now during rest next) (shut-Grows n (get_elem? m.objects n) m)
          (shut_all-Grows rest next)

    pub shutdown-Grows : (m : Manager) → Grows m (shutdown now during m)
    unfolding shutdown
    shutdown-Grows m = shut_all-Grows m.clients m
