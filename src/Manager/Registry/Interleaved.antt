-- ===== src/Manager/Registry/Interleaved.antt =====
-- Handlers that run at the same time: what still holds of the clients, and create and destroy as their
-- parts in a row.
use lierc.Base.{
  ℕ, Bool, true, false, List, [], ◌∷◌, Option, none, some, ◌≡◌, refl, sym, ap, ◌∙◌, inl, inr, Text,
  Map, get_elem?, set, length, Entries, Option-cases,
}
use mathlib.Core.Path.{subst₂}
use lierc.Unicode.{Unicode}
use lierc.Irc.{IrcGo}
use lierc.Config.{IrcConfig}
use lierc.Connection.{start}
use lierc.Connection.Steps
use lierc.Connection.Steps.{take_out}
use lierc.Manager.{Outside, Object, Manager, get_client, remove_client, message_if, delete_event}
use lierc.Manager.Requests.{
  find_object, find_at, object_at, add_new, destroy_object, destroy_pointed, destroy_found,
  destroy_by_id, raw_by_id, raw_object, raw_checked, send_raw, update_object, create, create_unless,
  later,
}
use lierc.Manager.Line.{raw_line}
use lierc.Manager.Tasks.{
  Task, to_add, to_destroy, to_remove, Server, begin_create, begin_destroy, destroy_task, go_on, Op,
  creates, destroys, raws, continues, step, run,
}
use lierc.Manager.Registry.{IsNamed, add-IsNamed, update-IsNamed, without-Entries}
use lierc.Manager.Registry.Spec.{message_if-Same, publish_statuses-Same}
use lierc.Manager.Registry.Actions.{add_new_lem, start-id, destroy_object-id, send_raw-id}

-- Each client is listed under its id.
abbrev pub Named : Manager → Type 0
Named m = Entries (IsNamed m.objects) m.clients

pub same-Named :
    (m : Manager) (clients : Map ℕ) (objects : List Object)
    → (m.clients ≡ clients) × (m.objects ≡ objects)
    → Entries (IsNamed objects) clients
    → Named m
same-Named m clients objects (p, q) named =
    subst₂ (λ (cs : Map ℕ) (os : List Object). Entries (IsNamed os) cs) (sym p) (sym q) named

find_at-get :
    (found : Option ℕ) (n : ℕ) (o : Object) (objects : List Object)
    → find_at objects found ≡ some (n, o)
    → get_elem? objects n ≡ some o
unfolding find_at object_at
find_at-get none n o objects h = absurd (cc h)
find_at-get (some k) n o objects h = elim (Option-cases (get_elem? objects k)) [
  | inl e ↦ absurd (cc (rw (e, object_at) at h))
  | inr (x, e) ↦
      let same : some (k, x) ≡ some (n, o) = rw (e, object_at) at h in
      let place : k ≡ n = cc same in
      let is : x ≡ o = cc same in ap (get_elem? objects) (sym place) ∙ e ∙ ap some is
]

module _ ⦃u : Unicode⦄ ⦃g : IrcGo⦄ ⦃out : Outside⦄ where
  add_new-Named :
      (now : ℕ) (id : Text) (config : IrcConfig) (m : Manager)
      → Named m
      → Named (add_new now id config m)
  add_new-Named now id config m named =
      let o : Object = record {
        attempts = start config id out.hostname;
        sender = none;
        destroyed = false;
      } in
      same-Named (add_new now id config m) _ _ (add_new_lem now id config m)
        (add-IsNamed id o m.clients m.objects (start-id config id out.hostname) named)

  destroy_pointed-Named :
      (now n : ℕ) (during : List Steps.Op) (o : Object) (m : Manager)
      → get_elem? m.objects n ≡ some o
      → Named m
      → Named (destroy_pointed now n during o m)
  unfolding destroy_pointed update_object
  destroy_pointed-Named now n during o m there named =
      let o' = destroy_object during o in
      let kept =
        publish_statuses-Same now (later (length o.attempts.statuses) o'.attempts.statuses) m in
      same-Named (destroy_pointed now n during o m) m.clients (set m.objects n o')
        (kept.0, ap (λ os. set os n o') kept.1)
        (update-IsNamed n o o' m.clients m.objects there (destroy_object-id during o) named)

  remove_client-Named : (id : Text) (m : Manager) → Named m → Named (remove_client id m)
  unfolding remove_client
  remove_client-Named id m named =
      without-Entries (IsNamed m.objects) (IsNamed m.objects) id m.clients (λ k v ne p. p) named

  raw_checked-Named :
      (now n : ℕ) (line : Text) (fits registered : Bool) (o : Object) (m : Manager)
      → get_elem? m.objects n ≡ some o
      → Named m
      → Named (raw_checked now n line fits registered o m).0
  unfolding raw_checked update_object
  raw_checked-Named now n line false registered o m there named = named
  raw_checked-Named now n line true false o m there named = named
  raw_checked-Named now n line true true o m there named =
      let r = send_raw now line o in
      same-Named (message_if r.1 (update_object n r.0 m)) m.clients (set m.objects n r.0)
        (message_if-Same r.1 (update_object n r.0 m))
        (update-IsNamed n o r.0 m.clients m.objects there (send_raw-id now line o).0 named)

  -- A client that was found is where it was found.
  abbrev At : Manager → Option (ℕ × Object) → Type 0
  At m none = Unit
  At m (some (n, o)) = get_elem? m.objects n ≡ some o

  find_object-At :
      (found : Option (ℕ × Object)) (id : Text) (m : Manager)
      → find_object id m ≡ found
      → At m found
  unfolding find_object
  find_object-At none id m h = tt
  find_object-At (some (n, o)) id m h = find_at-get (get_client id m) n o m.objects h

  raw_by_id-Named :
      (now : ℕ) (body : Option Text) (found : Option (ℕ × Object)) (m : Manager)
      → At m found
      → Named m
      → Named (raw_by_id now body found m).0
  unfolding raw_by_id raw_object
  raw_by_id-Named now body none m there named = named
  raw_by_id-Named now none (some (n, o)) m there named = named
  raw_by_id-Named now (some body) (some (n, o)) m there named =
      raw_checked-Named now n (raw_line body).0 (raw_line body).1 o.attempts.client.registered o m
        there named

  begin_create-Named :
      (id : Text) (config : Option IrcConfig) (found : Option ℕ) (s : Server)
      → Named s.manager
      → Named (begin_create id config found s).manager
  unfolding begin_create
  begin_create-Named id none found s named = named
  begin_create-Named id (some config) (some n) s named = named
  begin_create-Named id (some config) none s named = named

  begin_destroy-Named :
      (now : ℕ) (found : Option (ℕ × Object)) (s : Server)
      → Named s.manager
      → Named (begin_destroy now found s).manager
  unfolding begin_destroy
  begin_destroy-Named now none s named = named
  begin_destroy-Named now (some (n, o)) s named =
      same-Named (message_if (delete_event now o.attempts.client) s.manager) _ _
        (message_if-Same (delete_event now o.attempts.client) s.manager) named

  destroy_task-Named :
      (now : ℕ) (during : List Steps.Op) (n : ℕ) (at : Option Object) (s : Server)
      → get_elem? s.manager.objects n ≡ at
      → Named s.manager
      → Named (destroy_task now during n at s).manager
  unfolding destroy_task
  destroy_task-Named now during n none s there named = named
  destroy_task-Named now during n (some o) s there named =
      destroy_pointed-Named now n during o s.manager there named

  go_on-Named :
      (now : ℕ) (during : List Steps.Op) (task : Option (Task × List Task)) (s : Server)
      → Named s.manager
      → Named (go_on now during task s).manager
  unfolding go_on
  go_on-Named now during none s named = named
  go_on-Named now during (some (to_add id config, rest)) s named =
      add_new-Named now id config s.manager named
  go_on-Named now during (some (to_destroy n, rest)) s named =
      destroy_task-Named now during n (get_elem? s.manager.objects n) (record s { tasks = rest })
        refl named
  go_on-Named now during (some (to_remove id, rest)) s named =
      remove_client-Named id s.manager named

  pub step-Named : (op : Op) (s : Server) → Named s.manager → Named (step op s).manager
  unfolding step
  step-Named (creates id config) s named =
      begin_create-Named id config (get_client id s.manager) s named
  step-Named (destroys now id) s named = begin_destroy-Named now (find_object id s.manager) s named
  step-Named (raws now id body) s named =
      raw_by_id-Named now body (find_object id s.manager) s.manager
        (find_object-At (find_object id s.manager) id s.manager refl) named
  step-Named (continues i now during) s named = go_on-Named now during (take_out i s.tasks) s named

  -- If each client is listed under its id, then it is so after any history of requests that are
  -- handled at the same time, where create and destroy are cut between their sections of the lock.
  pub run-Named : (ops : List Op) (s : Server) → Named s.manager → Named (run ops s).manager
  unfolding run
  run-Named [] s named = named
  run-Named (op ∷ ops) s named = run-Named ops (step op s) (step-Named op s named)

  run-create :
      (now : ℕ) (id : Text) (config : Option IrcConfig) (m : Manager)
      → let s : Server = record { manager = m; tasks = [] } in
        (run (creates id config ∷ continues 0 now [] ∷ []) s).manager ≡ (create now id config m).0
  unfolding run step create begin_create go_on take_out
  run-create now id none m = refl
  run-create now id (some config) m = elim (Option-cases (get_client id m)) [
    | inl e ↦ rw (e, begin_create, create_unless)
    | inr (n, e) ↦ rw (e, begin_create, create_unless)
  ]

  destroy_parts :
      (now : ℕ) (during : List Steps.Op) (found : Option (ℕ × Object)) (m : Manager)
      → At m found
      → let s = begin_destroy now found (record { manager = m; tasks = [] }) in
        (run (continues 0 now during ∷ continues 0 now [] ∷ []) s).manager
        ≡ (destroy_by_id now during found m).0
  unfolding run step begin_destroy go_on take_out destroy_by_id destroy_found
  destroy_parts now during none m there = refl
  destroy_parts now during (some (n, o)) m there =
      let told = message_if (delete_event now o.attempts.client) m in
      let at : get_elem? told.objects n ≡ some o =
        ap (λ os. get_elem? os n) (message_if-Same (delete_event now o.attempts.client) m).1
        ∙ there in
      rw (at, destroy_task)

  -- The parts of create, and those of destroy, leave the manager in a row as HandleCommand does in
  -- one piece.
  pub run-requests :
      (now : ℕ) (during : List Steps.Op) (id : Text) (config : Option IrcConfig) (m : Manager)
      → let s : Server = record { manager = m; tasks = [] } in
        ((run (creates id config ∷ continues 0 now [] ∷ []) s).manager ≡ (create now id config m).0)
        × ((run (destroys now id ∷ continues 0 now during ∷ continues 0 now [] ∷ []) s).manager
            ≡ (destroy_by_id now during (find_object id m) m).0)
  unfolding run step
  run-requests now during id config m = (
    run-create now id config m,
    destroy_parts now during (find_object id m) m (find_object-At (find_object id m) id m refl),
  )
