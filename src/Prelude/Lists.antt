-- ===== src/Prelude/Lists.antt =====
-- Lists measured by native numbers, filters by Boolean tests, and predicates over lists.
use Prim.Native.Nat.{ℕ, zero, suc, ◌≤◌}
use mathlib.Core.Path.{◌≡◌, refl, sym, ap, subst}
use mathlib.Core.Logic.{◌⊎◌, inl, inr}
use mathlib.Core.Bool.{Bool, true, false, ◌&&◌, ◌||◌}
use mathlib.Core.List.{List, [], ◌∷◌, ◌++◌}
use native.Mathlib.Omega.{arith}
use autosubmit.Prelude.Tests.{if◌then◌else◌, Bool-cases}

module _ {ℓ} {A : Type ℓ} where
  abbrev pub length : List A → ℕ
  length [] = 0
  length (x ∷ xs) = suc (length xs)

  -- `[x for x in xs if p(x)]`.
  abbrev pub filter : (A → Bool) → List A → List A
  filter p [] = []
  filter p (x ∷ xs) = if p x then x ∷ filter p xs else filter p xs

  abbrev pub take : ℕ → List A → List A
  take zero xs = []
  take (suc n) [] = []
  take (suc n) (x ∷ xs) = x ∷ take n xs

  abbrev pub drop : ℕ → List A → List A
  drop zero xs = xs
  drop (suc n) [] = []
  drop (suc n) (x ∷ xs) = drop n xs

  abbrev pub any : (A → Bool) → List A → Bool
  any p [] = false
  any p (x ∷ xs) = p x || any p xs

  abbrev pub all : (A → Bool) → List A → Bool
  all p [] = true
  all p (x ∷ xs) = p x && all p xs

  abbrev pub All {κ} : (A → Type κ) → List A → Type κ
  All P [] = Unit
  All P (x ∷ xs) = P x × All P xs

-- `x in xs` as a predicate that computes.
abbrev pub In : {A : Type 0} → A → List A → Type 0
In a [] = ⊥
In a (x ∷ xs) = (a ≡ x) ⊎ In a xs

module _ {A : Type 0} where
  pub append_nil : (xs : List A) → xs ++ [] ≡ xs
  append_nil [] = refl
  append_nil (x ∷ xs) = ap (λ r. x ∷ r) (append_nil xs)

  pub append_assoc : (xs ys zs : List A) → (xs ++ ys) ++ zs ≡ xs ++ (ys ++ zs)
  append_assoc [] ys zs = refl
  append_assoc (x ∷ xs) ys zs = ap (λ r. x ∷ r) (append_assoc xs ys zs)

  pub In-append_left : (q : A) (xs ys : List A) → In q xs → In q (xs ++ ys)
  In-append_left q [] ys m = elim m [ ]
  In-append_left q (x ∷ xs) ys m = elim m [ inl e ↦ inl e | inr k ↦ inr (In-append_left q xs ys k) ]

  pub In-append_right : (q : A) (xs ys : List A) → In q ys → In q (xs ++ ys)
  In-append_right q [] ys m = m
  In-append_right q (x ∷ xs) ys m = inr (In-append_right q xs ys m)

  pub In-append : (q : A) (xs ys : List A) → In q (xs ++ ys) → In q xs ⊎ In q ys
  In-append q [] ys m = inr m
  In-append q (x ∷ xs) ys m = elim m [
    | inl e ↦ inl (inl e)
    | inr k ↦ elim (In-append q xs ys k) [ inl a ↦ inl (inr a) | inr b ↦ inr b ]
  ]

  pub length-append_one : (xs : List A) (x : A) → length (xs ++ (x ∷ [])) ≡ suc (length xs)
  length-append_one [] x = refl
  length-append_one (y ∷ xs) x = ap suc (length-append_one xs x)

  pub length-filter-le : (p : A → Bool) (xs : List A) → length (filter p xs) ≤ length xs
  length-filter-le p [] = omega arith
  length-filter-le p (x ∷ xs) = ground (arith, length-filter-le p xs)

  -- A filter that keeps the length keeps every element.
  pub All-length-filter :
      (p : A → Bool) (xs : List A) → length (filter p xs) ≡ length xs → All (λ x. p x ≡ true) xs
  All-length-filter p [] h = tt
  All-length-filter p (x ∷ xs) h = ground (arith, length-filter-le p xs, All-length-filter p xs)

  pub length-filter-All :
      (p : A → Bool) (xs : List A) → All (λ x. p x ≡ true) xs → length (filter p xs) ≡ length xs
  length-filter-All p [] h = refl
  length-filter-All p (x ∷ xs) h = ground (arith, length-filter-All p xs h.1)

  pub All-In {κ} : (P : A → Type κ) (a : A) (xs : List A) → All P xs → In a xs → P a
  All-In P a [] h m = elim m [ ]
  All-In P a (x ∷ xs) h m = elim m [ inl e ↦ subst P (sym e) h.0 | inr k ↦ All-In P a xs h.1 k ]

  filter_cons :
      (p : A → Bool) (x : A) (xs : List A) → p x ≡ true → filter p (x ∷ xs) ≡ x ∷ filter p xs
  filter_cons p x xs h = rw h

  filter_skip : (p : A → Bool) (x : A) (xs : List A) → p x ≡ false → filter p (x ∷ xs) ≡ filter p xs
  filter_skip p x xs h = rw h

  pub filter-All : (p : A → Bool) (xs : List A) → All (λ x. p x ≡ true) (filter p xs)
  filter-All p [] = tt
  filter-All p (x ∷ xs) = elim (Bool-cases (p x)) [
    | inl t ↦ subst (All (λ y. p y ≡ true)) (sym (filter_cons p x xs t)) (t, filter-All p xs)
    | inr f ↦ subst (All (λ y. p y ≡ true)) (sym (filter_skip p x xs f)) (filter-All p xs)
  ]

  pub In-filter_of :
      (p : A → Bool) (a : A) (xs : List A) → In a xs → p a ≡ true → In a (filter p xs)
  In-filter_of p a [] m h = elim m [ ]
  In-filter_of p a (x ∷ xs) m h = elim (Bool-cases (p x)) [
    | inl t ↦
        subst (In a) (sym (filter_cons p x xs t))
          (elim m [ inl e ↦ inl e | inr k ↦ inr (In-filter_of p a xs k h) ])
    | inr f ↦ subst (In a) (sym (filter_skip p x xs f)) (elim m [
      | inl e ↦ absurd (clash f (subst (λ y. p y ≡ true) e h))
      | inr k ↦ In-filter_of p a xs k h
    ])
  ]
    where
      clash : p x ≡ false → p x ≡ true → ⊥
      clash f t = cc

  pub In-filter : (p : A → Bool) (a : A) (xs : List A) → In a (filter p xs) → In a xs × (p a ≡ true)
  In-filter p a [] m = elim m [ ]
  In-filter p a (x ∷ xs) m = elim (Bool-cases (p x)) [
    | inl t ↦ elim (kept t) [
      | inl e ↦ (inl e, subst (λ y. p y ≡ true) (sym e) t)
      | inr k ↦ let out = In-filter p a xs k in (inr out.0, out.1)
    ]
    | inr f ↦ let out = In-filter p a xs (left f) in (inr out.0, out.1)
  ]
    where
      kept : p x ≡ true → (a ≡ x) ⊎ In a (filter p xs)
      kept t = subst (In a) (filter_cons p x xs t) m

      left : p x ≡ false → In a (filter p xs)
      left f = subst (In a) (filter_skip p x xs f) m

  pub All-map {κ μ} :
      {P : A → Type κ} {Q : A → Type μ}
      → ((x : A) → P x → Q x)
      → (xs : List A) → All P xs
      → All Q xs
  All-map f [] h = tt
  All-map f (x ∷ xs) h = (f x h.0, All-map f xs h.1)

  pub All-zip {κ μ} :
      (P : A → Type κ) (Q : A → Type μ) (xs : List A)
      → All P xs
      → All Q xs
      → All (λ x. P x × Q x) xs
  All-zip P Q [] h k = tt
  All-zip P Q (x ∷ xs) h k = ((h.0, k.0), All-zip P Q xs h.1 k.1)

  pub All-append {κ} : (P : A → Type κ) (xs ys : List A) → All P xs → All P ys → All P (xs ++ ys)
  All-append P [] ys h k = k
  All-append P (x ∷ xs) ys h k = (h.0, All-append P xs ys h.1 k)
