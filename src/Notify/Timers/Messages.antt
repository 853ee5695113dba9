-- ===== src/Notify/Timers/Messages.antt =====
-- The messages of a user's notifications, where one of them changes.
use lierc.Base.{
  ℕ, zero, suc, ◌<◌, true, false, List, [], ◌∷◌, ◌++◌, append-nil, append_assoc, some, ◌≡◌, ◌≢◌,
  refl, sym, ap, ◌∙◌, inl, inr, arith, if◌then◌else◌, Text, get_elem?, set, text_eq, text_eq_iff,
  ne-text_eq, Bool-cases, ltb,
}
use lierc.Notify.{LoggedMessage, Notification}
use lierc.Notify.Timers.{with_message, Op, accumulates}

-- The messages of a user's notifications, one notification after another.
abbrev pub messages_of : Text → List Notification → List LoggedMessage
messages_of user [] = []
messages_of user (o ∷ notes) =
    if text_eq o.user user then o.messages ++ messages_of user notes else messages_of user notes

-- The messages that are accumulated for a user without open streams.
abbrev pub accumulated : Text → List Op → List LoggedMessage
accumulated user [] = []
accumulated user (accumulates l m ∷ ops) =
    if ltb 0 l.streams
    then accumulated user ops
    else if text_eq l.user user
    then m ∷ accumulated user ops
    else accumulated user ops
accumulated user (op ∷ ops) = accumulated user ops

-- No notification behind the n-th is the user's.
abbrev pub IsLast : Text → ℕ → List Notification → Type 0
IsLast user n notes =
    (k : ℕ) (o : Notification) → n < k → get_elem? notes k ≡ some o → o.user ≢ user

pub none_of :
    (user : Text) (notes : List Notification)
    → ((k : ℕ) (o : Notification) → get_elem? notes k ≡ some o → o.user ≢ user)
    → messages_of user notes ≡ []
none_of user [] h = refl
none_of user (o ∷ notes) h =
    rw (ne-text_eq o.user user (h 0 o refl)) (none_of user notes (λ k x at. h (suc k) x at))

pub messages_of-append :
    (user : Text) (notes more : List Notification)
    → messages_of user (notes ++ more) ≡ messages_of user notes ++ messages_of user more
messages_of-append user [] more = refl
messages_of-append user (o ∷ notes) more = elim (Bool-cases (text_eq o.user user)) [
  | inl e ↦ rw e (
      ap (λ ms. o.messages ++ ms) (messages_of-append user notes more)
      ∙ sym (append_assoc o.messages (messages_of user notes) (messages_of user more)))
  | inr e ↦ rw e (messages_of-append user notes more)
]

-- The last notification of the user gets a message.
pub messages_of-set :
    (user : Text) (n : ℕ) (m : LoggedMessage) (o : Notification) (notes : List Notification)
    → get_elem? notes n ≡ some o
    → o.user ≡ user
    → IsLast user n notes
    → messages_of user (set notes n (with_message m o)) ≡ messages_of user notes ++ m ∷ []
unfolding with_message
messages_of-set user n m o [] h is last = absurd (cc h)
messages_of-set user zero m o (x ∷ notes) h is last =
    let same : x ≡ o = cc h in
    let rest = none_of user notes (λ k y at. last (suc k) y (omega arith) at) in
    let yes_o : text_eq o.user user ≡ true = (text_eq_iff o.user user).1 is in
    let yes_x : text_eq x.user user ≡ true =
      ap (λ (y : Notification). text_eq y.user user) same ∙ yes_o in
    rw (rest, yes_o, yes_x)
      (append-nil (o.messages ++ m ∷ [])
        ∙ ap (λ ms. ms ++ m ∷ [])
            (ap (λ (y : Notification). y.messages) (sym same) ∙ sym (append-nil x.messages)))
messages_of-set user (suc n) m o (x ∷ notes) h is last =
    let later =
      messages_of-set user n m o notes h is (λ k y lt at. last (suc k) y (omega (arith, lt)) at) in
    elim (Bool-cases (text_eq x.user user)) [
      | inl e ↦ rw e (
          ap (λ ms. x.messages ++ ms) later
          ∙ sym (append_assoc x.messages (messages_of user notes) (m ∷ [])))
      | inr e ↦ rw e later
    ]

-- A notification of another user is changed.
pub messages_of-other :
    (user : Text) (n : ℕ) (x o : Notification) (notes : List Notification)
    → get_elem? notes n ≡ some o
    → o.user ≢ user
    → x.user ≡ o.user
    → messages_of user (set notes n x) ≡ messages_of user notes
messages_of-other user n x o [] h ne same = refl
messages_of-other user zero x o (y ∷ notes) h ne same =
    let is : y ≡ o = cc h in
    let no_o : text_eq o.user user ≡ false = ne-text_eq o.user user ne in
    let no_x : text_eq x.user user ≡ false = ap (λ u. text_eq u user) same ∙ no_o in
    let no_y : text_eq y.user user ≡ false =
      ap (λ (z : Notification). text_eq z.user user) is ∙ no_o in
    rw (no_x, no_y)
messages_of-other user (suc n) x o (y ∷ notes) h ne same =
    let later = messages_of-other user n x o notes h ne same in
    elim (Bool-cases (text_eq y.user user)) [
      | inl e ↦ rw e (ap (λ ms. y.messages ++ ms) later)
      | inr e ↦ rw e later
    ]
