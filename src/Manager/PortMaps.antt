-- ===== src/Manager/PortMaps.antt =====
-- liercd's portmap and identd's lookup in it: whose connection a query is about.
use lierc.Base.{
  ℕ, Bool, true, false, ◌&&◌, List, [], ◌∷◌, Option, none, some, ◌≡◌, refl, ◌⊎◌, inl, inr, sym, ap,
  ◌∙◌, arith, if◌then◌else◌, Text, Map, text_eq, text_eq_iff, get_elem?, Bool-cases,
}
use mathlib.Core.Path.{subst}
use lierc.Unicode.{Unicode}
use lierc.Irc.{IrcGo}
use lierc.Connection.PortMap.{PortMapEntry}
use lierc.Ident.{entry_user, first_user}
use lierc.Manager.{Outside, Object}
use lierc.Manager.Requests.{portmap_rows, object_row, entry_row, entry_of}

module _ ⦃u : Unicode⦄ ⦃g : IrcGo⦄ ⦃out : Outside⦄ (same_ip : Text → Bool)
    (local remote : Text) where
  -- A socket's entry answers the query: its ports, and its server's address.
  abbrev pub Answers : PortMapEntry → Type 0
  Answers e = (e.local ≡ local) × (e.remote ≡ remote) × (same_ip e.remote_ip ≡ true)

  -- The listed client is connected by a socket that answers the query, and its ident user is `user`.
  abbrev pub Owns : List Object → Text → ℕ → Type 0
  Owns objects user n =
      (o : Object) × (e : PortMapEntry) × (get_elem? objects n ≡ some o)
      × (entry_of o.attempts.client ≡ some e)
      × (e.user ≡ user)
      × Answers e

  abbrev pub SomeClient : List Object → Text → Map ℕ → Type 0
  SomeClient objects user [] = ⊥
  SomeClient objects user ((id, n) ∷ rest) = Owns objects user n ⊎ SomeClient objects user rest

  abbrev pub NoClient : List Object → Map ℕ → Type 0
  NoClient objects [] = Unit
  NoClient objects ((id, n) ∷ rest) =
      ((user : Text) → Owns objects user n → ⊥) × NoClient objects rest

  row_user :
      (e : PortMapEntry)
      → entry_user same_ip local remote (e.user ∷ e.local ∷ e.remote ∷ e.remote_ip ∷ []) ≡ (
          if text_eq e.local local && (text_eq e.remote remote && same_ip e.remote_ip)
          then some e.user
          else none)
  unfolding entry_user
  row_user e = refl

  answers_test : (e : PortMapEntry) → Bool
  answers_test e = text_eq e.local local && (text_eq e.remote remote && same_ip e.remote_ip)

  answers_test-true : (e : PortMapEntry) → answers_test e ≡ true → Answers e
  unfolding answers_test
  answers_test-true e h = ground (arith, text_eq_iff e.local local, text_eq_iff e.remote remote)

  answers_test-false : (e : PortMapEntry) → answers_test e ≡ false → Answers e → ⊥
  unfolding answers_test
  answers_test-false e h a = ground (arith, text_eq_iff e.local local, text_eq_iff e.remote remote)

  -- What the lookup of one client's row gives: its user, or nothing and the client is not the owner.
  abbrev pub ClientOutcome : List Object → ℕ → Option (List Text) → Type 0
  ClientOutcome objects n none = (user : Text) → Owns objects user n → ⊥
  ClientOutcome objects n (some row) =
      ((user : Text) × (entry_user same_ip local remote row ≡ some user) × Owns objects user n)
      ⊎ ((entry_user same_ip local remote row ≡ none) × ((user : Text) → Owns objects user n → ⊥))

  owner_entry :
      (objects : List Object) (n : ℕ) (o : Object) (user : Text)
      → get_elem? objects n ≡ some o
      → (own : Owns objects user n) → entry_of o.attempts.client ≡ some own.1
  owner_entry objects n o user there own =
      let same : o ≡ own.0 = cc (sym there ∙ own.2) in
      ap (λ (x : Object). entry_of x.attempts.client) same ∙ own.3

  entry_outcome :
      (objects : List Object) (n : ℕ) (o : Object) (entry : Option PortMapEntry)
      → get_elem? objects n ≡ some o
      → entry_of o.attempts.client ≡ entry
      → ClientOutcome objects n (entry_row entry)
  unfolding entry_row answers_test text_eq
  entry_outcome objects n o none there h =
      λ user own. absurd (cc (sym h ∙ owner_entry objects n o user there own))
  entry_outcome objects n o (some e) there h = elim (Bool-cases (answers_test e)) [
    | inl t ↦
        inl
          (e.user, row_user e ∙ rw (t, answers_test), (o, e, there, h, refl, answers_test-true e t))
    | inr f ↦ inr (
      row_user e ∙ rw (f, answers_test),
      λ user own.
          let same : e ≡ own.1 = cc (sym h ∙ owner_entry objects n o user there own) in
          answers_test-false e f (subst Answers (sym same) own.5),
    )
  ]

  object_outcome :
      (objects : List Object) (n : ℕ) (at : Option Object)
      → get_elem? objects n ≡ at
      → ClientOutcome objects n (object_row at)
  unfolding object_row
  object_outcome objects n none h = λ user own. absurd (cc (sym h ∙ own.2))
  object_outcome objects n (some o) h =
      entry_outcome objects n o (entry_of o.attempts.client) h refl

  -- What the rows give, given what the first client's row gives.
  Lookup : List Object → Map ℕ → List (List Text) → Type 0
  Lookup objects clients rows =
      ((user : Text) × (first_user same_ip local remote rows ≡ some user)
        × SomeClient objects user clients)
      ⊎ ((first_user same_ip local remote rows ≡ none) × NoClient objects clients)

  with_row :
      (objects : List Object) (id : Text) (n : ℕ) (rest : Map ℕ) (rows : List (List Text))
      (row : Option (List Text))
      → ClientOutcome objects n row
      → Lookup objects rest rows
      → Lookup objects ((id, n) ∷ rest) (elim row [ none ↦ rows | some r ↦ r ∷ rows ])
  unfolding Lookup first_user
  with_row objects id n rest rows none out_of (inl (user, q, own)) = inl (user, q, inr own)
  with_row objects id n rest rows none out_of (inr (q, others)) = inr (q, (out_of, others))
  with_row objects id n rest rows (some r) (inl (user, q, own)) later =
      inl (user, rw (q, first_user), inl own)
  with_row objects id n rest rows (some r) (inr (p, out_of)) (inl (user, q, own)) =
      inl (user, rw (p, first_user) q, inr own)
  with_row objects id n rest rows (some r) (inr (p, out_of)) (inr (q, others)) =
      inr (rw (p, first_user) q, (out_of, others))

  -- identd's search of the portmap that liercd answers finds the ident user of a listed client whose
  -- socket has the query's ports and server address, or finds nobody and no listed client has such a
  -- socket.
  pub first_user-portmap_rows :
      (objects : List Object) (clients : Map ℕ)
      → ((user : Text) × (first_user same_ip local remote (portmap_rows objects clients)
            ≡ some user)
          × SomeClient objects user clients)
        ⊎ ((first_user same_ip local remote (portmap_rows objects clients) ≡ none)
            × NoClient objects clients)
  unfolding first_user portmap_rows Lookup
  first_user-portmap_rows objects [] = inr (refl, tt)
  first_user-portmap_rows objects ((id, n) ∷ rest) =
      with_row objects id n rest (portmap_rows objects rest) (object_row (get_elem? objects n))
        (object_outcome objects n (get_elem? objects n) refl) (first_user-portmap_rows objects rest)
