-- ===== src/Manager/Registry/Spec.antt =====
-- What the registry of clients promises: a set of ids, and the answers' codes where the set decides.
use lierc.Base.{
  ℕ, Bool, true, false, List, [], ◌∷◌, Option, none, some, ◌≡◌, refl, sym, ap, ◌∙◌, inl, inr,
  if◌then◌else◌, Text, text, Map, insert, delete, text_eq, has, is_some, lookup-insert,
  lookup-delete, Bool-cases,
}
use mathlib.Core.Path.{fun_ext, subst₂}
use lierc.Irc.{IrcGo}
use lierc.Connection.{Status}
use lierc.Manager.{
  ClientMessage, Object, Manager, message_if, message, enqueue, publish_status, publish_statuses,
  connect_event,
}
use lierc.Manager.Requests.{Response}
use lierc.Manager.Registry.{Inv}

-- The clients and the objects, which events do not touch.
abbrev pub InvOf : Manager → Type 0
InvOf m = Inv m.clients m.objects

abbrev pub Same : Manager → Manager → Type 0
Same a b = (a.clients ≡ b.clients) × (a.objects ≡ b.objects)

pub message_if-Same : (e : Option ClientMessage) (m : Manager) → Same (message_if e m) m
unfolding message_if message enqueue
message_if-Same none m = (refl, refl)
message_if-Same (some e) m = (refl, refl)

module _ ⦃g : IrcGo⦄ where
  pub publish_statuses-Same :
      (now : ℕ) (ss : List Status) (m : Manager) → Same (publish_statuses now ss m) m
  unfolding publish_statuses publish_status
  publish_statuses-Same now [] m = (refl, refl)
  publish_statuses-Same now (s ∷ ss) m =
      let here = message_if-Same (connect_event now s) m in
      let rest = publish_statuses-Same now ss (message_if (connect_event now s) m) in
      (rest.0 ∙ here.0, rest.1 ∙ here.1)

pub eq-InvOf :
    (m : Manager) (clients : Map ℕ) (objects : List Object)
    → m.clients ≡ clients
    → m.objects ≡ objects
    → Inv clients objects
    → InvOf m
eq-InvOf m clients objects p q inv = subst₂ Inv (sym p) (sym q) inv

-- A client of the id is there.
abbrev pub listed : Manager → Text → Bool
listed m id = has id m.clients

-- The abstract registry: a set of ids, and the code of the answer where the set decides it.
abbrev pub with_id : Text → Bool → (Text → Bool) → Text → Bool
with_id id b s j = if text_eq id j then b else s j

abbrev pub spec_create : Text → Bool → (Text → Bool) → (Text → Bool) × Option ℕ
spec_create id decodes s =
    if decodes
    then (if s id then (s, some 400) else (with_id id true s, some 200))
    else (s, some 400)

abbrev pub spec_destroy : Text → (Text → Bool) → (Text → Bool) × Option ℕ
spec_destroy id s = if s id then (with_id id false s, some 200) else (s, some 404)

abbrev pub spec_client : Text → (Text → Bool) → (Text → Bool) × Option ℕ
spec_client id s = (s, if s id then none else some 404)

abbrev pub spec_act : Text → Text → Bool → (Text → Bool) → (Text → Bool) × Option ℕ
spec_act id action decodes s =
    if text_eq action (text "create")
    then spec_create id decodes s
    else if text_eq action (text "destroy")
    then spec_destroy id s
    else if text_eq action (text "raw")
    then spec_client id s
    else if text_eq action (text "status")
    then spec_client id s
    else (s, some 200)

abbrev pub Agrees : Option ℕ → ℕ → Type 0
Agrees none code = Unit
Agrees (some k) code = code ≡ k

-- A request's outcome against the specification's.
abbrev pub Refines : (Text → Bool) × Option ℕ → Manager × Response → Type 0
Refines s r = InvOf r.0 × (listed r.0 ≡ s.0) × Agrees s.1 r.1.code

pub listed-insert :
    (id : Text) (n : ℕ) (clients : Map ℕ)
    → (λ j. has j (insert id n clients)) ≡ with_id id true (λ j. has j clients)
listed-insert id n clients = fun_ext λ j.
    ap is_some (lookup-insert id j n clients)
    ∙ elim (Bool-cases (text_eq id j)) [ inl e ↦ rw e | inr e ↦ rw e ]

pub listed-delete :
    (id : Text) (clients : Map ℕ)
    → (λ j. has j (delete id clients)) ≡ with_id id false (λ j. has j clients)
listed-delete id clients = fun_ext λ j.
    ap is_some (lookup-delete id j clients)
    ∙ elim (Bool-cases (text_eq id j)) [ inl e ↦ rw e | inr e ↦ rw e ]
