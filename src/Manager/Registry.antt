-- ===== src/Manager/Registry.antt =====
-- Which clients there are: each is listed under its id, and none that was not destroyed is lost.
pub mod Interleaved
pub mod Spec
pub mod Actions
pub mod Refines
mod Tests
use lierc.Base.{
  ℕ, ◌+◌, Bool, true, false, List, [], ◌∷◌, ◌++◌, Option, none, some, ◌≡◌, ◌≢◌, refl, sym, ap, ◌∙◌,
  ◌⊎◌, inl, inr, arith, if◌then◌else◌, Text, Map, lookup, insert, delete, text_eq, text_eq_iff,
  text_eq_refl, get_elem?, set, length, Entries, lookup-insert, lookup-delete, lookup-Entries,
  insert-Entries, Bool-cases, get_elem?-set_self, get_elem?-set_ne, get_elem?-append,
  get_elem?-append_last, get_elem?-append_cases,
}
use native.Mathlib.Decide.{ℕ_discrete}
use lierc.Manager.{Object}

-- Entry `id` names object n, and the object's client has this id.
abbrev pub IsNamed : List Object → Text → ℕ → Type 0
IsNamed objects id n = (o : Object) × (get_elem? objects n ≡ some o) × (o.attempts.client.id ≡ id)

pub record Inv (clients : Map ℕ) (objects : List Object) : Type 0 where
  pub named : Entries (IsNamed objects) clients
  pub kept :
      (n : ℕ) (o : Object)
      → get_elem? objects n ≡ some o
      → o.destroyed ≡ false
      → lookup o.attempts.client.id clients ≡ some n

-- A predicate of a map's entries from another one.
pub weaken-Entries {ℓ} :
    {V : Type ℓ} (P Q : Text → V → Type 0) (m : Map V)
    → ((k : Text) (v : V) → P k v → Q k v)
    → Entries P m
    → Entries Q m
weaken-Entries P Q [] f h = tt
weaken-Entries P Q ((k, v) ∷ m) f h = (f k v h.0, weaken-Entries P Q m f h.1)

-- What is left once a key is deleted satisfies Q, if P implies it of every other key.
pub without-Entries {ℓ} :
    {V : Type ℓ} (P Q : Text → V → Type 0) (id : Text) (m : Map V)
    → ((k : Text) (v : V) → id ≢ k → P k v → Q k v)
    → Entries P m
    → Entries Q (delete id m)
unfolding delete
without-Entries P Q id [] f h = tt
without-Entries P Q id ((k, v) ∷ m) f h = elim (Bool-cases (text_eq k id)) [
  | inl e ↦ rw e (without-Entries P Q id m f h.1)
  | inr e ↦ rw e (f k v (λ q. ground (arith, text_eq_iff k id)) h.0, without-Entries P Q id m f h.1)
]

pub add-IsNamed :
    (id : Text) (o : Object) (clients : Map ℕ) (objects : List Object)
    → o.attempts.client.id ≡ id
    → Entries (IsNamed objects) clients
    → Entries (IsNamed (objects ++ o ∷ [])) (insert id (length objects) clients)
add-IsNamed id o clients objects same named =
    insert-Entries (IsNamed (objects ++ o ∷ [])) id (length objects) clients
      (o, get_elem?-append_last objects o, same)
      (weaken-Entries (IsNamed objects) (IsNamed (objects ++ o ∷ [])) clients
        (λ k v p. (p.0, get_elem?-append objects (o ∷ []) v p.0 p.1, p.2)) named)

pub add-Inv :
    (id : Text) (o : Object) (clients : Map ℕ) (objects : List Object)
    → lookup id clients ≡ none
    → o.attempts.client.id ≡ id
    → Inv clients objects
    → Inv (insert id (length objects) clients) (objects ++ o ∷ [])
add-Inv id o clients objects new same inv = record {
  named = add-IsNamed id o clients objects same inv.named;
  kept = λ n o' there alive. elim (get_elem?-append_cases objects o n o' there) [
    | inl old ↦
        let was = inv.kept n o' old alive in
        lookup-insert id o'.attempts.client.id (length objects) clients
        ∙ (let differ : text_eq id o'.attempts.client.id ≡ false =
              ground (arith, text_eq_iff id o'.attempts.client.id) in
            rw differ was)
    | inr (last, e) ↦
        let mine : o'.attempts.client.id ≡ id =
          ap (λ (x : Object). x.attempts.client.id) (sym e) ∙ same in
        lookup-insert id o'.attempts.client.id (length objects) clients
        ∙ rw (mine, text_eq_refl id) (ap some (sym last))
  ];
}

-- An element of a list after a write, if there was one at the place.
set_cases {ℓ} :
    {A : Type ℓ} (xs : List A) (i j : ℕ) (u v w : A)
    → get_elem? xs i ≡ some u
    → get_elem? (set xs i v) j ≡ some w
    → ((i ≡ j) × (v ≡ w)) ⊎ ((i ≢ j) × (get_elem? xs j ≡ some w))
set_cases xs i j u v w there h = elim (ℕ_discrete i j) [
  | yes e ↦ inl (e, cc (get_elem?-set_self xs i v u there, e, h))
  | no ne ↦ inr (ne, sym (get_elem?-set_ne xs i j v ne) ∙ h)
]

-- Two elements at one place.
same_place {ℓ} :
    {A : Type ℓ} (xs : List A) (i j : ℕ) (u w : A)
    → get_elem? xs i ≡ some u
    → get_elem? xs j ≡ some w
    → i ≡ j
    → u ≡ w
same_place xs i j u w p q e = cc

id_of : {o x : Object} → o ≡ x → o.attempts.client.id ≡ x.attempts.client.id
id_of e = ap (λ (y : Object). y.attempts.client.id) e

-- The object that a key names is replaced by one with the same id that is alive no more.
pub remove-Inv :
    (n : ℕ) (o o' : Object) (clients : Map ℕ) (objects : List Object)
    → get_elem? objects n ≡ some o
    → lookup o.attempts.client.id clients ≡ some n
    → o'.destroyed ≡ true
    → Inv clients objects
    → Inv (delete o.attempts.client.id clients) (set objects n o')
remove-Inv n o o' clients objects there listed dead inv = record {
  named =
      without-Entries (IsNamed objects) (IsNamed (set objects n o')) o.attempts.client.id clients
        (λ k v ne p. (
          p.0,
          get_elem?-set_ne objects n v o'
                (λ e. ne (id_of (same_place objects n v o p.0 there p.1 e) ∙ p.2))
              ∙ p.1,
          p.2,
        ))
        inv.named;
  kept = λ j x at_j alive. elim (set_cases objects n j o o' x there at_j) [
    | inl (e, same) ↦ absurd (cc (ap (λ (y : Object). y.destroyed) same))
    | inr (ne, at) ↦
        let was = inv.kept j x at alive in
        lookup-delete o.attempts.client.id x.attempts.client.id clients
        ∙ elim (Bool-cases (text_eq o.attempts.client.id x.attempts.client.id)) [
          | inl e ↦
              let q = (text_eq_iff o.attempts.client.id x.attempts.client.id).0 e in
              absurd (ne (cc (ap (λ k. lookup k clients) q, listed, was)))
          | inr e ↦ rw e was
        ]
  ];
}

pub update-IsNamed :
    (n : ℕ) (o o' : Object) (clients : Map ℕ) (objects : List Object)
    → get_elem? objects n ≡ some o
    → o'.attempts.client.id ≡ o.attempts.client.id
    → Entries (IsNamed objects) clients
    → Entries (IsNamed (set objects n o')) clients
update-IsNamed n o o' clients objects there same named =
    weaken-Entries (IsNamed objects) (IsNamed (set objects n o')) clients
      (λ k v p. elim (ℕ_discrete n v) [
        | yes e ↦ (
          o',
          ap (get_elem? (set objects n o')) (sym e) ∙ get_elem?-set_self objects n o' o there,
          same ∙ id_of (same_place objects n v o p.0 there p.1 e) ∙ p.2,
        )
        | no ne ↦ (p.0, get_elem?-set_ne objects n v o' ne ∙ p.1, p.2)
      ])
      named

-- An object is replaced by one with the same id, alive as before.
pub update-Inv :
    (n : ℕ) (o o' : Object) (clients : Map ℕ) (objects : List Object)
    → get_elem? objects n ≡ some o
    → o'.attempts.client.id ≡ o.attempts.client.id
    → o'.destroyed ≡ o.destroyed
    → Inv clients objects
    → Inv clients (set objects n o')
update-Inv n o o' clients objects there same alike inv = record {
  named = update-IsNamed n o o' clients objects there same inv.named;
  kept = λ j x at_j alive. elim (set_cases objects n j o o' x there at_j) [
    | inl (e, is) ↦
        let was = inv.kept n o there (sym alike ∙ ap (λ (y : Object). y.destroyed) is ∙ alive) in
        ap (λ k. lookup k clients) (sym (id_of is) ∙ same) ∙ was ∙ ap some e
    | inr (ne, at) ↦ inv.kept j x at alive
  ];
}
