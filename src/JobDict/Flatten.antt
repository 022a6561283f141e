-- ===== src/JobDict/Flatten.antt =====
-- Lists of lists: the comprehensions of `get_jobs`.
use autosubmit.Prelude.{
  append_assoc, ◌≡◌, refl, sym, ap, ◌∙◌, Bool, true, false, List, [], ◌∷◌, ◌++◌, map, filter,
  Bool-cases, inl, inr,
}

-- `[x for xs in xss for x in xs]`
abbrev pub flatten : {A : Type 0} → List (List A) → List A
flatten [] = []
flatten (xs ∷ xss) = xs ++ flatten xss

module _ {A : Type 0} where
  pub flatten-append : (xs ys : List (List A)) → flatten (xs ++ ys) ≡ flatten xs ++ flatten ys
  flatten-append [] ys = refl
  flatten-append (x ∷ xs) ys =
      ap (λ r. x ++ r) (flatten-append xs ys) ∙ sym (append_assoc x (flatten xs) (flatten ys))

  pub flatten-flatten :
      {B : Type 0} (f : B → List (List A)) (xs : List B)
      → flatten (flatten (map f xs)) ≡ flatten (map (λ b. flatten (f b)) xs)
  flatten-flatten f [] = refl
  flatten-flatten f (x ∷ xs) =
      flatten-append (f x) (flatten (map f xs))
      ∙ ap (λ r. flatten (f x) ++ r) (flatten-flatten f xs)

  -- Elements that contribute nothing can be filtered out.
  pub flatten-filter :
      {B : Type 0} (f g : B → List A) (p : B → Bool)
      → ((b : B) → p b ≡ true → f b ≡ g b)
      → ((b : B) → p b ≡ false → f b ≡ [])
      → (xs : List B) → flatten (map f xs) ≡ flatten (map g (filter p xs))
  flatten-filter f g p same nothing [] = refl
  flatten-filter f g p same nothing (x ∷ xs) = elim (Bool-cases (p x)) [
    | inl t ↦ rw (t, same x t, flatten-filter f g p same nothing xs) refl
    | inr f ↦ rw (f, nothing x f) (flatten-filter _ g p same nothing xs)
  ]
