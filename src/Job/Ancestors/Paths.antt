-- ===== src/Job/Ancestors/Paths.antt =====
-- `is_ancestor` and the paths in the graph of jobs.
use autosubmit.Prelude.{
  ℕ, zero, suc, ◌<◌, ◌≡◌, ◌↔◌, refl, subst, inl, inr, Bool, true, ◌||◌, List, [], ◌∷◌, ◌==◌, ==-eq,
  nat_eq, contains, any, In, Bool-cases, arith,
}
use autosubmit.Job.Record.{Store}
use autosubmit.Job.Ancestors.{is_parent, is_ancestor}

-- A path of at least two edges up from a job.
pub data Above (s : Store) : ℕ → ℕ → Type 0 where
  two : (r p a : ℕ) → In p (s r).parents → In a (s p).parents → Above s r a
  more : (r p a : ℕ) → In p (s r).parents → Above s p a → Above s r a

In-any : (p : ℕ → Bool) (xs : List ℕ) → any p xs ≡ true → (x : ℕ) × In x xs × (p x ≡ true)
In-any p [] h = absurd (cc)
In-any p (x ∷ xs) h = elim (Bool-cases (p x)) [
  | inl t ↦ (x, inl refl, t)
  | inr f ↦ let (y, m, t) = In-any p xs (rw f at h) in (y, inr m, t)
]

or_true : (b : Bool) → (b || true) ≡ true
or_true b = ground arith

any-In : (p : ℕ → Bool) (x : ℕ) (xs : List ℕ) → In x xs → p x ≡ true → any p xs ≡ true
any-In p x [] m t = elim m [ ]
any-In p x (y ∷ ys) m t = elim m [
  | inl e ↦ rw (subst (λ z. p z ≡ true) e t) refl
  | inr k ↦ rw (any-In p x ys k t) (or_true (p y))
]

contains-In : (a : ℕ) (xs : List ℕ) → In a xs → contains xs a ≡ true
contains-In a [] m = elim m [ ]
contains-In a (x ∷ xs) m = elim m [
  | inl e ↦ ground arith
  | inr k ↦ ground (arith, contains-In a xs k)
]

In-contains : (a : ℕ) (xs : List ℕ) → contains xs a ≡ true → In a xs
In-contains a [] h = absurd (cc)
In-contains a (x ∷ xs) h = elim (Bool-cases (a == x)) [
  | inl t ↦ inl (==-eq a x t)
  | inr f ↦ inr (In-contains a xs (rw f at h))
]

is_ancestor-Above : (fuel : ℕ) (s : Store) (r a : ℕ) → is_ancestor fuel s r a ≡ true → Above s r a
unfolding is_ancestor is_parent
is_ancestor-Above zero s r a h = absurd (cc)
is_ancestor-Above (suc fuel) s r a h =
    let (p, m, t) = In-any (λ p. is_parent s p a || is_ancestor fuel s p a) (s r).parents h in
    elim (Bool-cases (is_parent s p a)) [
      | inl direct ↦ two r p a m (In-contains a (s p).parents direct)
      | inr f ↦ more r p a m (is_ancestor-Above fuel s p a (rw f at t))
    ]

Above-is_ancestor :
    (fuel : ℕ) (s : Store) (r a : ℕ)
    → ((q p : ℕ) → In p (s q).parents → p < q)
    → r < fuel
    → Above s r a
    → is_ancestor fuel s r a ≡ true
unfolding is_ancestor is_parent
Above-is_ancestor zero s r a order h path = absurd (omega arith)
Above-is_ancestor (suc fuel) s _ _ order h (two r p a m k) =
    any-In (λ p. is_parent s p a || is_ancestor fuel s p a) p (s r).parents m
      (rw (contains-In a (s p).parents k) refl)
Above-is_ancestor (suc fuel) s _ _ order h (more r p a m path) =
    any-In (λ p. is_parent s p a || is_ancestor fuel s p a) p (s r).parents m
      (rw (Above-is_ancestor fuel s p a order (omega (arith, order r p m)) path)
        (or_true (contains (s p).parents a)))

-- Where the parents of each job come before it, `is_ancestor` says of two jobs exactly whether there
-- is a path of at least two edges from the second to the first: a parent that is no more than that is
-- no ancestor. As deep as the number of the job is deep enough.
pub is_ancestor_iff :
    (s : Store)
    → ((q p : ℕ) → In p (s q).parents → p < q)
    → (r a : ℕ) → (is_ancestor (suc r) s r a ≡ true) ↔ Above s r a
is_ancestor_iff s order r a = (
  (λ h. is_ancestor-Above (suc r) s r a h),
  (λ path. Above-is_ancestor (suc r) s r a order (omega arith) path),
)
