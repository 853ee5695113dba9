-- ===== src/Manager/Registry/Actions.antt =====
-- Each action of HandleCommand against the registry's specification.
use lierc.Base.{
  ℕ, Bool, true, false, List, [], ◌∷◌, ◌++◌, Option, none, some, ◌≡◌, refl, ap, ◌∙◌, inl, inr, Text,
  Map, lookup, insert, delete, get_elem?, set, length, has, is_some, lookup-Entries, Option-cases,
}
use lierc.Unicode.{Unicode}
use lierc.Irc.{IrcGo}
use lierc.Config.{IrcConfig}
use lierc.Client.{Client, request_nick}
use lierc.Connection.{start, new_irc_client}
use lierc.Connection.Endings.{destroy, destroy_end}
use lierc.Connection.Steps
use lierc.Connection.Names.{run-id}
use lierc.Manager.{
  Outside, Object, Manager, message_if, get_client, add_client, publish_statuses, create_event,
  delete_event,
}
use lierc.Manager.Requests.{
  create, create_unless, add_new, find_at, object_at, destroy_by_id, raw_by_id, destroy_found,
  to_end, destroy_pointed, destroy_object, raw_object, raw_checked, send_raw, client_send,
  set_client, ask_nick, update_object, later,
}
use lierc.Manager.Line.{raw_line, requested_nick}
use lierc.Manager.Registry.{IsNamed, add-Inv, remove-Inv, update-Inv}
use lierc.Manager.Registry.Spec.{
  InvOf, message_if-Same, publish_statuses-Same, eq-InvOf, listed, with_id, spec_create,
  spec_destroy, spec_client, Refines, listed-insert, listed-delete,
}

pub start-id : (config : IrcConfig) (id hostname : Text) → (start config id hostname).client.id ≡ id
unfolding start new_irc_client
start-id config id hostname = refl

ask_nick-id : (nick : Option Text) (c : Client) → (ask_nick nick c).id ≡ c.id
unfolding ask_nick request_nick
ask_nick-id none c = refl
ask_nick-id (some nick) c = refl

module _ ⦃u : Unicode⦄ ⦃g : IrcGo⦄ ⦃out : Outside⦄ where
  pub add_new_lem :
      (now : ℕ) (id : Text) (config : IrcConfig) (m : Manager)
      → let o : Object = record {
        attempts = start config id out.hostname;
        sender = none;
        destroyed = false;
      } in
        ((add_new now id config m).clients ≡ insert id (length m.objects) m.clients)
        × ((add_new now id config m).objects ≡ m.objects ++ o ∷ [])
  unfolding add_new add_client
  add_new_lem now id config m =
      let a = start config id out.hostname in
      let o : Object = record { attempts = a; sender = none; destroyed = false } in
      let added = record m {
        clients = insert id (length m.objects) m.clients;
        objects = m.objects ++ o ∷ [];
      } in
      let kept = publish_statuses-Same now a.statuses added in
      let told =
        message_if-Same (create_event now a.client) (publish_statuses now a.statuses added) in
      (told.0 ∙ kept.0, told.1 ∙ kept.1)

  create_unless-Refines :
      (now : ℕ) (id : Text) (config : IrcConfig) (found : Option ℕ) (m : Manager)
      → lookup id m.clients ≡ found
      → InvOf m
      → Refines (spec_create id true (listed m)) (create_unless now id config found m)
  unfolding create_unless
  create_unless-Refines now id config (some n) m e inv = rw e (inv, refl, refl)
  create_unless-Refines now id config none m e inv =
      let o : Object = record {
        attempts = start config id out.hostname;
        sender = none;
        destroyed = false;
      } in
      let made = add_new_lem now id config m in
      let added = add-Inv id o m.clients m.objects e (start-id config id out.hostname) inv in
      let said =
        ap (λ (cs : Map ℕ). (λ (j : Text). has j cs)) made.0
        ∙ listed-insert id (length m.objects) m.clients in
      rw e (eq-InvOf (add_new now id config m) _ _ made.0 made.1 added, said, refl)

  pub create-Refines :
      (now : ℕ) (id : Text) (config : Option IrcConfig) (m : Manager)
      → InvOf m
      → Refines (spec_create id (is_some config) (listed m)) (create now id config m)
  unfolding create get_client
  create-Refines now id none m inv = (inv, refl, refl)
  create-Refines now id (some config) m inv =
      create_unless-Refines now id config (lookup id m.clients) m refl inv

  pub destroy_object-id :
      (during : List Steps.Op) (o : Object)
      → (destroy_object during o).attempts.client.id ≡ o.attempts.client.id
  unfolding destroy_object destroy destroy_end
  destroy_object-id during o =
      run-id out.duration (during ++ to_end o.attempts.client.conn) (destroy o.attempts)

  destroy_found_lem :
      (now n : ℕ) (during : List Steps.Op) (o : Object) (m : Manager)
      → ((destroy_found now n during o m).clients ≡ delete o.attempts.client.id m.clients)
        × ((destroy_found now n during o m).objects ≡ set m.objects n (destroy_object during o))
  unfolding destroy_found destroy_pointed
  destroy_found_lem now n during o m =
      let told = message_if (delete_event now o.attempts.client) m in
      let o' = destroy_object during o in
      let said = message_if-Same (delete_event now o.attempts.client) m in
      let kept =
        publish_statuses-Same now (later (length o.attempts.statuses) o'.attempts.statuses) told in
      (ap (delete o.attempts.client.id) (kept.0 ∙ said.0), ap (λ os. set os n o') (kept.1 ∙ said.1))

  -- A client that is listed is found, with its object.
  pub find_at_lem :
      (id : Text) (n : ℕ) (m : Manager)
      → InvOf m
      → lookup id m.clients ≡ some n
      → (o : Object) × (find_at m.objects (some n) ≡ some (n, o))
        × (get_elem? m.objects n ≡ some o)
        × (o.attempts.client.id ≡ id)
  unfolding find_at object_at
  find_at_lem id n m inv e =
      let (o, there, named) = lookup-Entries (IsNamed m.objects) id n m.clients inv.named e in
      (o, ap (object_at n) there, there, named)

  pub destroy_at-Refines :
      (now : ℕ) (during : List Steps.Op) (id : Text) (found : Option ℕ) (m : Manager)
      → lookup id m.clients ≡ found
      → InvOf m
      → Refines (spec_destroy id (listed m)) (destroy_by_id now during (find_at m.objects found) m)
  unfolding destroy_by_id destroy_object find_at
  destroy_at-Refines now during id none m e inv = rw (e, find_at) (inv, refl, refl)
  destroy_at-Refines now during id (some n) m e inv =
      let (o, found, there, named) = find_at_lem id n m inv e in
      let gone = destroy_found_lem now n during o m in
      let listed_o = ap (λ k. lookup k m.clients) named ∙ e in
      let left =
        remove-Inv n o (destroy_object during o) m.clients m.objects there listed_o refl inv in
      let said =
        ap (λ (cs : Map ℕ). (λ (j : Text). has j cs)) gone.0
        ∙ listed-delete o.attempts.client.id m.clients
        ∙ ap (λ k. with_id k false (listed m)) named in
      rw e (rw found (eq-InvOf (destroy_found now n during o m) _ _ gone.0 gone.1 left, said, refl))

  pub send_raw-id :
      (now : ℕ) (line : Text) (o : Object)
      → let o' = (send_raw now line o).0 in
        (o'.attempts.client.id ≡ o.attempts.client.id) × (o'.destroyed ≡ o.destroyed)
  unfolding send_raw client_send set_client
  send_raw-id now line o =
      let same = ask_nick-id (requested_nick now line) o.attempts.client in
      elim (Option-cases o.sender) [ inl e ↦ rw e (same, refl) | inr (s, e) ↦ rw e (same, refl) ]

  raw_checked-Refines :
      (now n : ℕ) (line : Text) (fits registered : Bool) (o : Object) (m : Manager)
      → get_elem? m.objects n ≡ some o
      → InvOf m
      → Refines (listed m, none) (raw_checked now n line fits registered o m)
  unfolding raw_checked update_object
  raw_checked-Refines now n line false registered o m there inv = (inv, refl, tt)
  raw_checked-Refines now n line true false o m there inv = (inv, refl, tt)
  raw_checked-Refines now n line true true o m there inv =
      let r = send_raw now line o in
      let same = send_raw-id now line o in
      let said = message_if-Same r.1 (update_object n r.0 m) in
      let kept = update-Inv n o r.0 m.clients m.objects there same.0 same.1 inv in
      (
        eq-InvOf (message_if r.1 (update_object n r.0 m)) _ _ said.0 said.1 kept,
        ap (λ (cs : Map ℕ). (λ (j : Text). has j cs)) said.0,
        tt,
      )

  pub raw_at-Refines :
      (now : ℕ) (body : Option Text) (id : Text) (found : Option ℕ) (m : Manager)
      → lookup id m.clients ≡ found
      → InvOf m
      → Refines (spec_client id (listed m)) (raw_by_id now body (find_at m.objects found) m)
  unfolding raw_by_id raw_object find_at
  raw_at-Refines now body id none m e inv = rw e (inv, refl, refl)
  raw_at-Refines now none id (some n) m e inv =
      let (o, found, there, named) = find_at_lem id n m inv e in rw e (rw found (inv, refl, tt))
  raw_at-Refines now (some body) id (some n) m e inv =
      let (o, found, there, named) = find_at_lem id n m inv e in
      rw e (
        rw found (
          raw_checked-Refines now n (raw_line body).0 (raw_line body).1 o.attempts.client.registered
            o m there inv))
