-- ===== src/Manager/Registry/Refines.antt =====
-- Requests that are handled one at a time act on the set of the clients' ids as the specification says.
use lierc.Base.{
  ℕ, Bool, false, List, [], ◌∷◌, Option, none, some, ◌≡◌, refl, inl, inr, arith, if◌then◌else◌,
  Text, text, lookup, text_eq, is_some, Bool-cases, Option-cases,
}
use mathlib.Core.Path.{subst}
use lierc.Unicode.{Unicode}
use lierc.Irc.{IrcGo}
use lierc.Connection.Steps
use lierc.Manager.{Outside, Manager, new_client_manager, get_client}
use lierc.Manager.Requests.{
  Request, handle_command, act, find_at, status_by_id, find_object, id_and_action, later,
}
use lierc.Manager.Registry.Spec.{InvOf, listed, spec_client, spec_act, Agrees, Refines}
use lierc.Manager.Registry.Actions.{create-Refines, destroy_at-Refines, raw_at-Refines, find_at_lem}

module _ ⦃u : Unicode⦄ ⦃g : IrcGo⦄ ⦃out : Outside⦄ where
  status_at-Refines :
      (id : Text) (found : Option ℕ) (m : Manager)
      → lookup id m.clients ≡ found
      → InvOf m
      → Refines (spec_client id (listed m)) (status_by_id (find_at m.objects found) m)
  unfolding status_by_id find_at
  status_at-Refines id none m e inv = rw e (inv, refl, refl)
  status_at-Refines id (some n) m e inv =
      let (o, found, there, named) = find_at_lem id n m inv e in rw e (rw found (inv, refl, tt))

  act-Refines :
      (now : ℕ) (during : List Steps.Op) (id action : Text) (r : Request) (m : Manager)
      → InvOf m
      → Refines (spec_act id action (is_some r.config) (listed m)) (act now during id action r m)
  unfolding act find_object get_client
  act-Refines now during id action r m inv = elim (Bool-cases (text_eq action (text "create"))) [
    | inl c ↦ rw c (create-Refines now id r.config m inv)
    | inr c ↦ elim (Bool-cases (text_eq action (text "destroy"))) [
      | inl d ↦ rw c (rw d (destroy_at-Refines now during id (lookup id m.clients) m refl inv))
      | inr d ↦ elim (Bool-cases (text_eq action (text "raw"))) [
        | inl w ↦ rw c (rw d (rw w (raw_at-Refines now r.body id (lookup id m.clients) m refl inv)))
        | inr w ↦ elim (Bool-cases (text_eq action (text "status"))) [
          | inl t ↦
              rw c (rw d (rw w (rw t (status_at-Refines id (lookup id m.clients) m refl inv))))
          | inr t ↦ rw c (rw d (rw w (rw t (inv, refl, refl))))
        ]
      ]
    ]
  ]

  -- The specification of a request, by its path.
  abbrev pub spec_at : Option (Text × Text) → Bool → (Text → Bool) → (Text → Bool) × Option ℕ
  spec_at none decodes s = (s, some 200)
  spec_at (some (id, action)) decodes s = spec_act id action decodes s

  abbrev pub spec_command : Request → (Text → Bool) → (Text → Bool) × Option ℕ
  spec_command r s =
      if text_eq r.path (text "/state")
      then (s, some 200)
      else if text_eq r.path (text "/portmap")
      then (s, some 200)
      else spec_at (id_and_action r.path) (is_some r.config) s

  handle_command-Refines :
      (now : ℕ) (during : List Steps.Op) (r : Request) (m : Manager)
      → InvOf m
      → Refines (spec_command r (listed m)) (handle_command now during r m)
  unfolding handle_command
  handle_command-Refines now during r m inv = elim (Bool-cases (text_eq r.path (text "/state"))) [
    | inl p ↦ rw p (inv, refl, refl)
    | inr p ↦ elim (Bool-cases (text_eq r.path (text "/portmap"))) [
      | inl q ↦ rw p (rw q (inv, refl, refl))
      | inr q ↦ elim (Option-cases (id_and_action r.path)) [
        | inl e ↦ rw p (rw q (rw e (inv, refl, refl)))
        | inr ((id, action), e) ↦ rw p (rw q (rw e (act-Refines now during id action r m inv)))
      ]
    ]
  ]

  -- A request, with the time and what other goroutines do while it waits.
  pub record Arrival : Type 0 where
    pub now : ℕ
    pub during : List Steps.Op
    pub request : Request

  unfoldable pub serve : List Arrival → Manager → Manager × List ℕ
  serve [] m = (m, [])
  serve (a ∷ later) m =
      let r = handle_command a.now a.during a.request m in
      let rest = serve later r.0 in (rest.0, r.1.code ∷ rest.1)

  abbrev pub spec_serve : List Arrival → (Text → Bool) → (Text → Bool) × List (Option ℕ)
  spec_serve [] s = (s, [])
  spec_serve (a ∷ later) s =
      let r = spec_command a.request s in let rest = spec_serve later r.0 in (rest.0, r.1 ∷ rest.1)

  abbrev pub AllAgree : List (Option ℕ) → List ℕ → Type 0
  AllAgree [] [] = Unit
  AllAgree (d ∷ ds) (c ∷ cs) = Agrees d c × AllAgree ds cs
  AllAgree _ _ = ⊥

  serve-Refines :
      (arrivals : List Arrival) (m : Manager)
      → InvOf m
      → InvOf (serve arrivals m).0
        × (listed (serve arrivals m).0 ≡ (spec_serve arrivals (listed m)).0)
        × AllAgree (spec_serve arrivals (listed m)).1 (serve arrivals m).1
  unfolding serve
  serve-Refines [] m inv = (inv, refl, tt)
  serve-Refines (a ∷ later) m inv =
      let here = handle_command-Refines a.now a.during a.request m inv in
      let r = handle_command a.now a.during a.request m in
      let rest = serve-Refines later r.0 here.0 in
      let moved =
        subst
          (λ (s : Text → Bool).
            (listed (serve later r.0).0 ≡ (spec_serve later s).0)
            × AllAgree (spec_serve later s).1 (serve later r.0).1)
          here.1 (rest.1, rest.2) in
      (rest.0, moved.0, (here.2, moved.1))

  -- For every sequence of requests that a new manager handles one at a time: each client is listed
  -- under its id, no client that was not destroyed is missing, the ids listed are those of the
  -- specification (a set of ids, to which create adds and from which destroy removes), and each
  -- answer has the code that the specification gives, where it gives one.
  pub serve-new_refines :
      (arrivals : List Arrival)
      → let r = serve arrivals new_client_manager in
        let s = spec_serve arrivals (λ id. false) in
        InvOf r.0 × (listed r.0 ≡ s.0) × AllAgree s.1 r.1
  unfolding new_client_manager lookup
  serve-new_refines arrivals =
      serve-Refines arrivals new_client_manager
        (record { named = tt; kept = λ n o there alive. absurd (ground arith) })
