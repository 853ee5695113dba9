-- ===== src/Ident/Lookup.antt =====
-- lookup over the portmaps: what each answer says about them.
use lierc.Base.{
  Bool, true, false, List, [], ◌∷◌, none, some, ◌≡◌, refl, ◌⊎◌, inl, inr, arith, Text, All, ap, ◌∙◌,
  Option-cases,
}
use lierc.Ident.{
  found, no_user, Fetched, ports, refused, broken, entry_user, first_user, lookup, note_fetch,
}

-- Some element satisfies the predicate.
abbrev pub Some {ℓ} : {A : Type ℓ} → (A → Type 0) → List A → Type 0
Some P [] = ⊥
Some P (x ∷ xs) = P x ⊎ Some P xs

Fetched-cases :
    (f : Fetched) → ((ps : List (List Text)) × (f ≡ ports ps)) ⊎ ((f ≡ refused) ⊎ (f ≡ broken))
Fetched-cases (ports ps) = inl (ps, refl)
Fetched-cases refused = inr (inl refl)
Fetched-cases broken = inr (inr refl)

module _ (fetch : Text → Fetched) (same_ip : Text → Bool) (local remote : Text) where
  -- An entry of a portmap that was read names the user for this query.
  abbrev pub Names : Text → Text → Type 0
  Names user url =
      (ps : List (List Text)) × (fetch url ≡ ports ps)
      × Some (λ mapping. entry_user same_ip local remote mapping ≡ some user) ps

  -- A portmap that was read, or whose liercd is not running, and that has no entry for this query.
  abbrev pub HasNone : Text → Type 0
  HasNone url =
      ((ps : List (List Text)) × (fetch url ≡ ports ps)
        × All (λ mapping. entry_user same_ip local remote mapping ≡ none) ps)
      ⊎ (fetch url ≡ refused)

  first_user-some :
      (ps : List (List Text)) (user : Text)
      → first_user same_ip local remote ps ≡ some user
      → Some (λ mapping. entry_user same_ip local remote mapping ≡ some user) ps
  unfolding first_user
  first_user-some [] user h = absurd (cc)
  first_user-some (mapping ∷ ps) user h =
      elim (Option-cases (entry_user same_ip local remote mapping)) [
        | inl e ↦ inr (first_user-some ps user (rw (e, first_user) at h))
        | inr (v, e) ↦ inl (ground arith)
      ]

  first_user-none :
      (ps : List (List Text))
      → first_user same_ip local remote ps ≡ none
      → All (λ mapping. entry_user same_ip local remote mapping ≡ none) ps
  unfolding first_user
  first_user-none [] h = tt
  first_user-none (mapping ∷ ps) h = elim (Option-cases (entry_user same_ip local remote mapping)) [
    | inl e ↦ (e, first_user-none ps (rw (e, first_user) at h))
    | inr (v, e) ↦ absurd (ground arith)
  ]

  lookup-found_from :
      (urls : List Text) (bad : Bool) (down : List Text) (user : Text)
      → (lookup fetch same_ip local remote bad down urls).0 ≡ found user
      → Some (Names user) urls
  unfolding lookup
  lookup-found_from [] bad down user h = absurd (ground arith)
  lookup-found_from (url ∷ urls) bad down user h = elim (Fetched-cases (fetch url)) [
    | inl (ps, e) ↦ elim (Option-cases (first_user same_ip local remote ps)) [
      | inl none_there ↦ inr (
          lookup-found_from urls bad (note_fetch url false down).0 user
            (rw (none_there, lookup) at (rw (e, lookup) at h)))
      | inr (v, there) ↦
          let hit = rw (there, lookup) at (rw (e, lookup) at h) in
          let same : v ≡ user = cc hit in
          inl (ps, e, first_user-some ps user (there ∙ ap some same))
    ]
    | inr (inl e) ↦
        inr (lookup-found_from urls bad (note_fetch url true down).0 user (rw (e, lookup) at h))
    | inr (inr e) ↦
        inr (lookup-found_from urls true (note_fetch url true down).0 user (rw (e, lookup) at h))
  ]

  -- A user that lookup finds is named by an entry, for the ports and the address of the query, of a
  -- portmap that was read.
  pub lookup-found :
      (urls down : List Text) (user : Text)
      → (lookup fetch same_ip local remote false down urls).0 ≡ found user
      → Some (Names user) urls
  lookup-found urls down user h = lookup-found_from urls false down user h

  lookup-no_user_from :
      (urls : List Text) (bad : Bool) (down : List Text)
      → (lookup fetch same_ip local remote bad down urls).0 ≡ no_user
      → (bad ≡ false) × All HasNone urls
  unfolding lookup
  lookup-no_user_from [] true down h = absurd (ground arith)
  lookup-no_user_from [] false down h = (refl, tt)
  lookup-no_user_from (url ∷ urls) bad down h = elim (Fetched-cases (fetch url)) [
    | inl (ps, e) ↦ elim (Option-cases (first_user same_ip local remote ps)) [
      | inl none_there ↦
          let rest =
            lookup-no_user_from urls bad (note_fetch url false down).0
              (rw (none_there, lookup) at (rw (e, lookup) at h)) in
          (rest.0, (inl (ps, e, first_user-none ps none_there), rest.1))
      | inr (v, there) ↦ let hit = rw (there, lookup) at (rw (e, lookup) at h) in absurd (cc hit)
    ]
    | inr (inl e) ↦
        let rest =
          lookup-no_user_from urls bad (note_fetch url true down).0 (rw (e, lookup) at h) in
        (rest.0, (inr e, rest.1))
    | inr (inr e) ↦
        let rest =
          lookup-no_user_from urls true (note_fetch url true down).0 (rw (e, lookup) at h) in
        absurd (ground arith)
  ]

  -- If lookup answers that there is no user, every portmap was read or its liercd is not running,
  -- and none of those read has an entry for the query.
  pub lookup-no_user :
      (urls down : List Text)
      → (lookup fetch same_ip local remote false down urls).0 ≡ no_user
      → All HasNone urls
  lookup-no_user urls down h = (lookup-no_user_from urls false down h).1
