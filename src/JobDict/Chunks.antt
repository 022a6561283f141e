-- ===== src/JobDict/Chunks.antt =====
-- The loops of `_create_jobs_chunk`: the innermost test, and what the three loops leave.
use autosubmit.Prelude.{
  ℕ, ◌+◌, ◌<◌, ◌%◌, ◌≡◌, refl, ap, subst, String, Bool, true, ◌&&◌, ◌||◌, none, some, List, [], ◌∷◌,
  ◌==◌, Eq, contains, nat_eq, string_eq, list_eq, if◌then◌else◌, Bool-cases, inl, inr, Result, ok,
  Map, get_key, length, arith,
}
use autosubmit.Prelude.Int.{ℤ, Text}
use autosubmit.JobDict.Names.{DicJobs, Place, Built}
use autosubmit.JobDict.Create.{
  chunks, fixed, due, create_each, always, at, is_some, after_delay, chunk_due, chunk_test,
  chunk_kept, create_all, real_splits,
}
use autosubmit.JobDict.Loops.{chosen, chosen-always, Stored, create_each_lem}
use autosubmit.JobDict.Refines.{OfChunks, OfMembers, OfDates}

-- A loop that creates for every key.
pub create_every_lem :
    {K V : Type 0} ⦃e : Eq K⦄ (Q : K → V → Type 0) (make : K → Result V) (ks : List K)
    → ((k : K) → contains ks k ≡ true → (v : V) × (make k ≡ ok v) × Q k v)
    → (x : Map K V) × (create_each always make ks 0 [] ≡ ok x) × Stored Q ks [] x
create_every_lem Q make ks h =
    let (x, r, st) =
      create_each_lem Q always make (λ k n. true) (λ k n. refl) ks 0 [] (λ k n c p. h k c) in
    (x, r, subst (λ cs. Stored Q cs [] x) (chosen-always 0 ks) st)

-- A second test that holds wherever the first one chooses changes nothing.
chosen-and :
    {K : Type 0} ⦃e : Eq K⦄ (pick : K → ℕ → Bool) (p : K → Bool) (n : ℕ) (ks : List K)
    → ((k : K) → contains (chosen pick n ks) k ≡ true → p k ≡ true)
    → chosen (λ k i. pick k i && p k) n ks ≡ chosen pick n ks
chosen-and pick p n [] h = refl
chosen-and pick p n (k ∷ ks) h = elim (Bool-cases (pick k (n + 1))) [
  | inl t ↦
      rw (t, (rw t at h) k (ground arith))
        (ap (λ r. k ∷ r) (chosen-and pick p (n + 1) ks (λ j c. (rw t at h) j (ground arith))))
  | inr f ↦ rw f (chosen-and pick p (n + 1) ks (rw f at h))
]

module _ (s : DicJobs) (J : ℕ → Text → ℕ → List Built) where
  pub create_all_lem :
      (test : ℕ → ℕ → ℕ → Result Bool) (jobs_at : ℕ → Text → ℕ → Result (List Built))
      (pick : ℕ → ℕ → Bool)
      → ((d c n : ℕ) → test d c n ≡ ok (pick c n))
      → ((d c n : ℕ) (m : Text)
          → contains s.date_list d ≡ true
          → pick c n ≡ true
          → jobs_at d m c ≡ ok (J d m c))
      → (x : Map ℕ (Map Text (Map ℕ (List Built)))) × (create_all s test jobs_at ≡ ok (chunks x))
        × OfDates s (chosen pick 0 s.chunk_list) J x
  unfolding create_all
  create_all_lem test jobs_at pick asked made =
      let (x, r, st) = create_every_lem (OfMembers s cs J) _ s.date_list by_members in
      (x, rw r refl, st)
    where
      cs : List ℕ
      cs = chosen pick 0 s.chunk_list

      by_chunks :
          (d : ℕ) (m : Text)
          → contains s.date_list d ≡ true
          → (v : Map ℕ (List Built)) × (create_each (test d) (jobs_at d m) s.chunk_list 0 [] ≡ ok v)
            × OfChunks s cs J d m v
      by_chunks d m t =
          create_each_lem (λ c v. v ≡ J d m c) (test d) (jobs_at d m) pick (asked d) s.chunk_list 0
            [] (λ c n i p. (J d m c, made d c n m t p, refl))

      by_members :
          (d : ℕ)
          → contains s.date_list d ≡ true
          → (v : Map Text (Map ℕ (List Built))) × (create_each always
                (λ m. create_each (test d) (jobs_at d m) s.chunk_list 0 [])
                s.member_list
                0
                []
              ≡ ok v)
            × OfMembers s cs J d v
      by_members d t = create_every_lem (OfChunks s cs J d) _ s.member_list (λ m i. by_chunks d m t)

-- The chunks that have jobs: those after DELAY whose position FREQUENCY divides, and the last one.
unfoldable pub chunks_created : DicJobs → ℕ → ℤ → List ℕ
unfolding after_delay nat_eq
chunks_created s frequency delay =
    chosen (λ c n. after_delay delay c && (n % frequency == 0 || n == length s.chunk_list)) 0
      s.chunk_list

-- What a job depends on: with SYNCHRONIZE it is shared by the members, or by dates and members.
unfoldable pub shared_place : String → ℕ → Text → ℕ → Place
unfolding string_eq
shared_place synchronize =
    if synchronize == "date"
    then (λ d m c. at none none (some c))
    else if synchronize == "member"
    then (λ d m c. at (some d) none (some c))
    else (λ d m c. at (some d) (some m) (some c))

module _ (s : DicJobs) (frequency : ℕ) (delay : ℤ) where
  unfoldable pub pick : ℕ → ℕ → Bool
  unfolding after_delay nat_eq
  pick c n = after_delay delay c && (n % frequency == 0 || n == length s.chunk_list)

  module _ (h : 0 < frequency) where
    pub chunk_due_lem : (c n : ℕ) → chunk_due s frequency delay c n ≡ ok (pick c n)
    unfolding chunk_due pick due nat_eq
    chunk_due_lem c n = ground arith

    pub chunk_test_lem :
        (calendar : ℕ → ℕ → Result ℤ) (z : ℤ) (d c n : ℕ)
        → chunk_test s calendar frequency delay (fixed z) d c n ≡ ok (pick c n)
    unfolding chunk_test real_splits
    chunk_test_lem calendar z d c n = chunk_due_lem c n

  module _ {V : Type 0} (Q : ℕ → V → Type 0) (tmp : Map ℕ V)
      (st : Stored Q (chunks_created s frequency delay) [] tmp) where
    unfoldable pub kept : ℕ → ℕ → Bool
    unfolding get_key nat_eq pick
    kept c n = pick c n && is_some (get_key c tmp)

    pub chunk_kept_lem :
        (test : ℕ → ℕ → ℕ → Result Bool)
        → ((d c n : ℕ) → test d c n ≡ ok (pick c n))
        → (d c n : ℕ) → chunk_kept tmp test d c n ≡ ok (kept c n)
    unfolding chunk_kept kept
    chunk_kept_lem test asked d c n = rw (asked d c n) refl

    pub kept_found : (c n : ℕ) → kept c n ≡ true → (v : V) × (get_key c tmp ≡ some v) × Q c v
    unfolding kept get_key
    kept_found c n k = elim (Bool-cases (contains (chunks_created s frequency delay) c)) [
      | inl t ↦ (st c).0 t
      | inr f ↦ absurd (ground (arith, (st c).1 f))
    ]

    pub kept_same : chosen kept 0 s.chunk_list ≡ chunks_created s frequency delay
    unfolding kept chunks_created pick
    kept_same =
        chosen-and pick (λ c. is_some (get_key c tmp)) 0 s.chunk_list
          (λ c t. let (v, e, q) = (st c).0 t in rw e refl)
