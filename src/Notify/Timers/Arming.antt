-- ===== src/Notify/Timers/Arming.antt =====
-- Which timers are armed and which functions are to run, as lists of numbers.
use lierc.Base.{
  ℕ, true, false, ◌||◌, List, [], ◌∷◌, ◌≡◌, ◌≢◌, refl, ◌⊎◌, inl, inr, arith, if◌then◌else◌,
  contains, ◌==◌, ==_iff, Bool-cases,
}
use lierc.Notify.Timers.{disarm, arm, take_one}

pub contains-disarm :
    (m n : ℕ) (ks : List ℕ) → contains m (disarm n ks) ≡ (if m == n then false else contains m ks)
unfolding contains disarm
contains-disarm m n [] = ground arith
contains-disarm m n (k ∷ ks) = ground (arith, contains-disarm m n ks)

pub contains-arm : (m n : ℕ) (ks : List ℕ) → contains m (arm n ks) ≡ (m == n || contains m ks)
unfolding contains arm
contains-arm m n ks = ground (arith, contains-disarm m n ks)

pub contains_first : (n : ℕ) (ks : List ℕ) → contains n (n ∷ ks) ≡ true
unfolding contains
contains_first n ks = ground (arith, ==_iff n n)

pub contains_later : (m n : ℕ) (ks : List ℕ) → contains m ks ≡ true → contains m (n ∷ ks) ≡ true
unfolding contains
contains_later m n ks h = ground arith

pub disarm_other :
    (m n : ℕ) (ks : List ℕ) → m ≢ n → contains m ks ≡ true → contains m (disarm n ks) ≡ true
disarm_other m n ks ne h = ground (arith, contains-disarm m n ks, ==_iff m n)

pub disarm_before : (m n : ℕ) (ks : List ℕ) → contains m (disarm n ks) ≡ true → contains m ks ≡ true
disarm_before m n ks h = ground (arith, contains-disarm m n ks)

pub arm_this : (n : ℕ) (ks : List ℕ) → contains n (arm n ks) ≡ true
arm_this n ks = ground (arith, contains-arm n n ks, ==_iff n n)

pub arm_other : (m n : ℕ) (ks : List ℕ) → contains m ks ≡ true → contains m (arm n ks) ≡ true
arm_other m n ks h = ground (arith, contains-arm m n ks)

pub arm_cases :
    (m n : ℕ) (ks : List ℕ) → contains m (arm n ks) ≡ true → (m ≡ n) ⊎ (contains m ks ≡ true)
arm_cases m n ks h = elim (Bool-cases (m == n)) [
  | inl e ↦ inl ((==_iff m n).0 e)
  | inr e ↦ inr (ground (arith, contains-arm m n ks))
]

pub contains-take_one : (m n : ℕ) (ks : List ℕ) → m ≢ n → contains m (take_one n ks) ≡ contains m ks
unfolding contains take_one
contains-take_one m n [] ne = refl
contains-take_one m n (k ∷ ks) ne = ground (arith, contains-take_one m n ks)
