-- ===== src/Notify/WebPush/Endpoint.antt =====
-- The id of a push, out of its endpoint.
use lierc.Base.{
  ℕ, true, false, List, [], ◌∷◌, ◌++◌, ◌==◌, Text, split, contains, ◌≡◌, refl, sym, ap, ◌∙◌, arith,
  ◌⊎◌, inl, inr, append_assoc, All, Bool-cases,
}
use mathlib.Core.Path.{subst}
use lierc.Notify.WebPush.{last_of, last_part, endpoint_id}

-- The parts with the separator between them.
joined : ℕ → Text → List Text → Text
joined b w [] = w
joined b w (v ∷ vs) = w ++ b ∷ joined b v vs

-- The parts of a text: they make the text, and none holds the separator.
record Parts (b : ℕ) (s : Text) (ps : List Text) : Type 0 where
  first : Text
  others : List Text
  are : ps ≡ first ∷ others
  make : joined b first others ≡ s
  clean : All (λ (p : Text). contains b p ≡ false) (first ∷ others)

==-is : (x b : ℕ) → x == b ≡ true → x ≡ b
==-is x b e = ground arith

joined-cons : (b x : ℕ) (w : Text) (vs : List Text) → joined b (x ∷ w) vs ≡ x ∷ joined b w vs
unfolding joined
joined-cons b x w [] = refl
joined-cons b x w (v ∷ vs) = refl

split-Parts : (b : ℕ) (s : Text) → Parts b s (split b s)
unfolding split joined contains
split-Parts b [] = record { first = []; others = []; are = refl; make = refl; clean = (refl, tt) }
split-Parts b (x ∷ xs) =
    let rest = split-Parts b xs in
    elim (Bool-cases (x == b)) [
      | inl e ↦ rw e (record {
        first = [];
        others = rest.first ∷ rest.others;
        are = ap (λ l. [] ∷ l) rest.are;
        make =
            ap (λ (y : ℕ). y ∷ joined b rest.first rest.others) (sym (==-is x b e))
            ∙ ap (λ l. x ∷ l) rest.make;
        clean = (refl, rest.clean);
      })
      | inr e ↦ rw e (record {
        first = x ∷ rest.first;
        others = rest.others;
        are = rw rest.are refl;
        make = joined-cons b x rest.first rest.others ∙ ap (λ l. x ∷ l) rest.make;
        clean = (rw e rest.clean.0, rest.clean.1);
      })
    ]

-- What stands behind the last separator, if there is one, or the whole text.
abbrev pub IsBehind : ℕ → Text → Text → Type 0
IsBehind b s tail = (s ≡ tail) ⊎ ((front : Text) × (s ≡ front ++ b ∷ tail))

joined-IsBehind : (b : ℕ) (w : Text) (vs : List Text) → IsBehind b (joined b w vs) (last_of w vs)
unfolding joined last_of
joined-IsBehind b w [] = inl refl
joined-IsBehind b w (v ∷ vs) = elim (joined-IsBehind b v vs) [
  | inl e ↦ inr (w, ap (λ l. w ++ b ∷ l) e)
  | inr (front, e) ↦
      inr (
        w ++ b ∷ front,
        ap (λ l. w ++ b ∷ l) e ∙ sym (append_assoc w (b ∷ front) (b ∷ last_of v vs)),
      )
]

last_of-clean :
    (b : ℕ) (w : Text) (vs : List Text)
    → All (λ (p : Text). contains b p ≡ false) (w ∷ vs)
    → contains b (last_of w vs) ≡ false
unfolding last_of
last_of-clean b w [] h = h.0
last_of-clean b w (v ∷ vs) h = last_of-clean b v vs h.1

-- The id of an endpoint stands behind its last slash.
pub endpoint_id-IsBehind :
    (endpoint : Text)
    → IsBehind b'/' endpoint (endpoint_id endpoint) × (contains b'/' (endpoint_id endpoint) ≡ false)
unfolding endpoint_id last_part
endpoint_id-IsBehind endpoint =
    let parts = split-Parts b'/' endpoint in
    let is : last_of parts.first parts.others ≡ endpoint_id endpoint =
      ap last_part (sym parts.are) in
    (
      subst (IsBehind b'/' endpoint) is (
          subst (λ s. IsBehind b'/' s (last_of parts.first parts.others)) parts.make
            (joined-IsBehind b'/' parts.first parts.others)),
      subst (λ l. contains b'/' l ≡ false) is
          (last_of-clean b'/' parts.first parts.others parts.clean),
    )
