-- ===== src/Manager/Shutdown.antt =====
-- pkg/liercd/manager.go: Shutdown, where each client is destroyed before the timer of three seconds, which
-- ends the program, runs out. The goroutines are taken one after another.
use lierc.Base.{
  ℕ, true, List, [], ◌∷◌, ◌++◌, Option, none, some, ◌≡◌, refl, sym, ap, ◌∙◌, Map, get_elem?, set,
  length, Entries, get_elem?-set_self, get_elem?-set_ne,
}
use native.Mathlib.Decide.{ℕ_discrete}
use lierc.Unicode.{Unicode}
use lierc.Irc.{IrcGo}
use lierc.Connection.Steps
use lierc.Connection.Endings.{destroy_end}
use lierc.Connection.Destroyed.{run-destroy, run-IsQuiet}
use lierc.Manager.{Outside, Object, Manager}
use lierc.Manager.Requests.{to_end, destroy_object, destroy_pointed, update_object, later}
use lierc.Manager.Registry.{IsNamed}
use lierc.Manager.Registry.Spec.{publish_statuses-Same}

module _ ⦃u : Unicode⦄ ⦃g : IrcGo⦄ ⦃out : Outside⦄ (now : ℕ) (during : ℕ → List Steps.Op) where
  unfoldable pub shut : ℕ → Option Object → Manager → Manager
  unfolding destroy_pointed
  shut n none m = m
  shut n (some o) m = destroy_pointed now n (during n) o m

  -- The loop over m.Clients.
  unfoldable pub shut_all : Map ℕ → Manager → Manager
  unfolding shut
  shut_all [] m = m
  shut_all ((id, n) ∷ rest) m = shut_all rest (shut n (get_elem? m.objects n) m)

  -- Shutdown
  unfoldable pub shutdown : Manager → Manager
  unfolding shut_all
  shutdown m = shut_all m.clients m

  -- The client quits, has no sender, and begins no attempt in any history.
  abbrev pub IsOver : Object → Type 0
  IsOver o =
      (o.attempts.client.quitting ≡ true)
      × (o.attempts.client.sender ≡ none)
      × (o.sender ≡ none)
      × ((ops : List Steps.Op) → (Steps.run out.duration ops o.attempts).begun ≡ o.attempts.begun)

  destroy_object-IsOver : (waits : List Steps.Op) (o : Object) → IsOver (destroy_object waits o)
  unfolding destroy_object destroy_end
  destroy_object-IsOver waits o =
      let ops = waits ++ to_end o.attempts.client.conn in
      let a = (destroy_object waits o).attempts in
      let quits = (run-destroy out.duration ops o.attempts).1 in
      (
        quits,
        refl,
        refl,
        λ later_ops.
            (run-IsQuiet out.duration a.begun true later_ops a (quits, refl, λ e. absurd (cc e))).1,
      )

  -- Object n was made, or was made and is over.
  abbrev pub IsMade : Manager → ℕ → Type 0
  IsMade m n = (o : Object) × (get_elem? m.objects n ≡ some o)

  abbrev pub IsDestroyed : Manager → ℕ → Type 0
  IsDestroyed m n = (o : Object) × (get_elem? m.objects n ≡ some o) × IsOver o

  shut-objects :
      (n : ℕ) (o : Object) (m : Manager)
      → (shut n (some o) m).objects ≡ set m.objects n (destroy_object (during n) o)
  unfolding shut destroy_pointed update_object
  shut-objects n o m =
      let o' = destroy_object (during n) o in
      ap (λ os. set os n o')
        (publish_statuses-Same now (later (length o.attempts.statuses) o'.attempts.statuses) m).1

  shut-at :
      (n : ℕ) (o : Object) (m : Manager)
      → get_elem? m.objects n ≡ some o
      → IsDestroyed (shut n (get_elem? m.objects n) m) n
  shut-at n o m there =
      let o' = destroy_object (during n) o in
      rw there (
        o',
        ap (λ os. get_elem? os n) (shut-objects n o m) ∙ get_elem?-set_self m.objects n o' o there,
        destroy_object-IsOver (during n) o,
      )

  -- What was made stays made, and what is destroyed stays so.
  shut-IsDestroyed :
      (n k : ℕ) (at : Option Object) (m : Manager)
      → get_elem? m.objects n ≡ at
      → IsDestroyed m k
      → IsDestroyed (shut n at m) k
  unfolding shut
  shut-IsDestroyed n k none m there gone = gone
  shut-IsDestroyed n k (some o) m there (x, at, gone) =
      let o' = destroy_object (during n) o in
      elim (ℕ_discrete n k) [
        | yes e ↦ (
          o',
          ap (λ os. get_elem? os k) (shut-objects n o m)
              ∙ ap (get_elem? (set m.objects n o')) (sym e)
              ∙ get_elem?-set_self m.objects n o' o there,
          destroy_object-IsOver (during n) o,
        )
        | no ne ↦ (
          x,
          ap (λ os. get_elem? os k) (shut-objects n o m)
              ∙ get_elem?-set_ne m.objects n k o' ne
              ∙ at,
          gone,
        )
      ]

  shut-IsMade :
      (n k : ℕ) (at : Option Object) (m : Manager)
      → get_elem? m.objects n ≡ at
      → IsMade m k
      → IsMade (shut n at m) k
  unfolding shut
  shut-IsMade n k none m there made = made
  shut-IsMade n k (some o) m there (x, at) =
      let o' = destroy_object (during n) o in
      elim (ℕ_discrete n k) [
        | yes e ↦ (
          o',
          ap (λ os. get_elem? os k) (shut-objects n o m)
              ∙ ap (get_elem? (set m.objects n o')) (sym e)
              ∙ get_elem?-set_self m.objects n o' o there,
        )
        | no ne ↦ (
          x,
          ap (λ os. get_elem? os k) (shut-objects n o m)
              ∙ get_elem?-set_ne m.objects n k o' ne
              ∙ at,
        )
      ]

  shut_all-IsDestroyed :
      (rest : Map ℕ) (k : ℕ) (m : Manager) → IsDestroyed m k → IsDestroyed (shut_all rest m) k
  unfolding shut_all
  shut_all-IsDestroyed [] k m gone = gone
  shut_all-IsDestroyed ((id, n) ∷ rest) k m gone =
      shut_all-IsDestroyed rest k (shut n (get_elem? m.objects n) m)
        (shut-IsDestroyed n k (get_elem? m.objects n) m refl gone)

  shut-Entries :
      (n : ℕ) (rest : Map ℕ) (m : Manager)
      → Entries (λ id k. IsMade m k) rest
      → Entries (λ id k. IsMade (shut n (get_elem? m.objects n) m) k) rest
  shut-Entries n [] m made = tt
  shut-Entries n ((id, k) ∷ rest) m made =
      (shut-IsMade n k (get_elem? m.objects n) m refl made.0, shut-Entries n rest m made.1)

  shut_all-all :
      (rest : Map ℕ) (m : Manager)
      → Entries (λ id k. IsMade m k) rest
      → Entries (λ id k. IsDestroyed (shut_all rest m) k) rest
  unfolding shut_all
  shut_all-all [] m made = tt
  shut_all-all ((id, n) ∷ rest) m made =
      let next = shut n (get_elem? m.objects n) m in
      (
        shut_all-IsDestroyed rest n next (shut-at n made.0.0 m made.0.1),
        shut_all-all rest next (shut-Entries n rest m made.1),
      )

  named-IsMade :
      (rest : Map ℕ) (m : Manager)
      → Entries (IsNamed m.objects) rest
      → Entries (λ id k. IsMade m k) rest
  named-IsMade [] m named = tt
  named-IsMade ((id, n) ∷ rest) m named = ((named.0.0, named.0.1), named-IsMade rest m named.1)

  -- If each client is listed under its id, then Shutdown, where its timer does not run out, leaves
  -- every client that was listed over.
  pub shutdown-IsDestroyed :
      (m : Manager)
      → Entries (IsNamed m.objects) m.clients
      → Entries (λ id n. IsDestroyed (shutdown m) n) m.clients
  unfolding shutdown
  shutdown-IsDestroyed m named = shut_all-all m.clients m (named-IsMade m.clients m named)
