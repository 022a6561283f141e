-- ===== src/JobDict/Loops.antt =====
-- What the creating loops leave in their dictionary.
use autosubmit.Prelude.{
  ℕ, ◌+◌, ◌≡◌, refl, sym, ap, ◌∙◌, subst, Bool, true, false, some, List, [], ◌∷◌, ◌==◌, ==-eq, Eq,
  contains, if◌then◌else◌, Bool-cases, inl, inr, Result, ok, Map, get_key, set_key, get_key-set_key,
  arith,
}
use autosubmit.JobDict.Create.{create_each}

module _ {K : Type 0} where
  -- The keys for which the test says yes, at the count that it is asked with.
  abbrev pub chosen : (K → ℕ → Bool) → ℕ → List K → List K
  chosen pick n [] = []
  chosen pick n (k ∷ ks) =
      if pick k (n + 1) then k ∷ chosen pick (n + 1) ks else chosen pick (n + 1) ks

  pub chosen-always : (n : ℕ) (ks : List K) → chosen (λ k n. true) n ks ≡ ks
  chosen-always n [] = refl
  chosen-always n (k ∷ ks) = ap (λ r. k ∷ r) (chosen-always (n + 1) ks)

module _ {K V : Type 0} ⦃e : Eq K⦄ (Q : K → V → Type 0) where
  -- The chosen keys have a value with the property, the others what they had.
  abbrev pub Stored : List K → Map K V → Map K V → Type 0
  Stored cs m m' =
      (j : K)
      → (contains cs j ≡ true → (v : V) × (get_key j m' ≡ some v) × Q j v)
        × (contains cs j ≡ false → get_key j m' ≡ get_key j m)

  -- One assignment before the rest.
  Stored-step :
      (k : K) (v : V) (cs : List K) (m m' : Map K V)
      → Q k v
      → Stored cs (set_key k v m) m'
      → Stored (k ∷ cs) m m'
  Stored-step k v cs m m' q st j = elim (Bool-cases (contains cs j)) [
    | inl later ↦ ((λ c. (st j).0 later), (λ c. ground arith))
    | inr not_later ↦
        let e : get_key j m' ≡ (if j == k then some v else get_key j m) =
          (st j).1 not_later ∙ get_key-set_key j k v m in
        elim (Bool-cases (j == k)) [
          | inl same ↦ (
            (λ c. (v, rw same at e, subst (λ i. Q i v) (sym (==-eq j k same)) q)),
            (λ c. ground arith),
          )
          | inr other ↦ ((λ c. ground arith), (λ c. rw other at e))
        ]
  ]

  module _ (test : K → ℕ → Result Bool) (make : K → Result V) (pick : K → ℕ → Bool)
      (asked : (k : K) (n : ℕ) → test k n ≡ ok (pick k n)) where
    pub create_each_lem :
        (ks : List K) (n : ℕ) (m : Map K V)
        → ((k : K) (n : ℕ)
            → contains ks k ≡ true
            → pick k n ≡ true
            → (v : V) × (make k ≡ ok v) × Q k v)
        → (m' : Map K V) × (create_each test make ks n m ≡ ok m') × Stored (chosen pick n ks) m m'
    unfolding create_each
    create_each_lem [] n m h = (m, refl, λ j. ((λ c. cc), (λ c. refl)))
    create_each_lem (k ∷ ks) n m h = elim (Bool-cases (pick k (n + 1))) [
      | inr no_pick ↦
          let (m', r, st) = create_each_lem ks (n + 1) m (λ j i c. h j i (ground arith)) in
          (m', rw (asked k (n + 1), no_pick) r, rw no_pick st)
      | inl picked ↦
          let (v, made, q) = h k (n + 1) (ground arith) picked in
          let (m', r, st) =
            create_each_lem ks (n + 1) (set_key k v m) (λ j i c. h j i (ground arith)) in
          (
            m',
            rw (asked k (n + 1), picked, made) r,
            rw picked (Stored-step k v (chosen pick (n + 1) ks) m m' q st),
          )
    ]
