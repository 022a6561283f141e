-- ===== src/JobDict/Synchronize.antt =====
-- What `get_jobs` finds after `_create_jobs_chunk`, for every SYNCHRONIZE.
use autosubmit.Prelude.{
  ℕ, ◌<◌, ◌≡◌, refl, ap, subst, String, Bool, Option, none, some, List, [], ◌==◌, nat_eq, string_eq,
  list_eq, Bool-cases, inl, inr, Result, ok, ◌>>=◌, Map, get_key,
}
use autosubmit.Prelude.Int.{ℤ, Text}
use autosubmit.JobDict.Names.{DicJobs, Section, Place, Built, create_jobs_split}
use autosubmit.JobDict.Create.{
  Entry, chunks, fixed, at, chunk_due, chunk_test, chunk_kept, create_unified, create_by_date,
  test_chunks, create_all, create_jobs_chunk, real_splits, number_of, shared, by_date_of,
}
use autosubmit.JobDict.Get.{get_jobs}
use autosubmit.JobDict.Loops.{Stored, create_each_lem}
use autosubmit.JobDict.Refines.{wanted, OfDates, get_jobs_lem}
use autosubmit.JobDict.Chunks.{
  create_every_lem, create_all_lem, chunks_created, shared_place, pick, chunk_due_lem,
  chunk_test_lem, kept, chunk_kept_lem, kept_found, kept_same,
}

module _ (s : DicJobs) (section : Section) (z : ℤ) where
  jobs_of : Place → List Built
  jobs_of p = create_jobs_split s section z p

  unified_lem :
      (frequency : ℕ) (delay : ℤ) (h : 0 < frequency)
      → (tmp : Map ℕ (List Built)) × (create_unified s section
            (fixed z)
            (chunk_due s frequency delay)
          ≡ ok tmp)
        × Stored
            (λ c v. v ≡ jobs_of (at none none (some c)))
            (chunks_created s frequency delay)
            []
            tmp
  unfolding create_unified number_of chunks_created pick jobs_of
  unified_lem frequency delay h =
      create_each_lem _ (chunk_due s frequency delay) _ (pick s frequency delay)
        (chunk_due_lem s frequency delay h) s.chunk_list 0 [] (λ c n i p. (_, refl, refl))

  tested_lem :
      (frequency : ℕ) (delay : ℤ)
      → 0 < frequency
      → (tmp : Map ℕ (List Built)) × (test_chunks s section (chunk_due s frequency delay) ≡ ok tmp)
  unfolding test_chunks pick
  tested_lem frequency delay h =
      let (tmp, r, st) =
        create_each_lem (λ c v. v ≡ []) (chunk_due s frequency delay) _ (pick s frequency delay)
          (chunk_due_lem s frequency delay h) s.chunk_list 0 [] (λ c n i p. (_, refl, refl)) in
      (tmp, r)

  by_date_lem :
      (frequency : ℕ) (delay : ℤ) (h : 0 < frequency)
      → (tmp : Map ℕ (Map ℕ (List Built))) × (create_by_date s section
            (fixed z)
            (chunk_due s frequency delay)
          ≡ ok tmp)
        × Stored
            (λ c x. Stored (λ d v. v ≡ jobs_of (at (some d) none (some c))) s.date_list [] x)
            (chunks_created s frequency delay)
            []
            tmp
  unfolding create_by_date number_of chunks_created pick jobs_of
  by_date_lem frequency delay h =
      create_each_lem _ (chunk_due s frequency delay) _ (pick s frequency delay)
        (chunk_due_lem s frequency delay h) s.chunk_list 0 []
        (λ c n i p.
          create_every_lem (λ d v. v ≡ jobs_of (at (some d) none (some c))) _ s.date_list
            (λ d t. (_, refl, refl)))

  -- The entry that holds the jobs of `place` for the chunks that are created.
  Holds : ℕ → ℤ → (ℕ → Text → ℕ → Place) → Result Entry → Type 0
  Holds frequency delay place r =
      (x : Map ℕ (Map Text (Map ℕ (List Built)))) × (r ≡ ok (chunks x))
      × OfDates s (chunks_created s frequency delay) (λ d m c. jobs_of (place d m c)) x

  module _ (calendar : ℕ → ℕ → Result ℤ) (frequency : ℕ) (delay : ℤ) (h : 0 < frequency) where
    test : ℕ → ℕ → ℕ → Result Bool
    test = chunk_test s calendar frequency delay (fixed z)

    test_lem : (d c n : ℕ) → test d c n ≡ ok (pick s frequency delay c n)
    unfolding test
    test_lem = chunk_test_lem s frequency delay h calendar z

    separate :
        Holds frequency delay
          (λ d m c. at (some d) (some m) (some c))
          (create_all s test (λ d m c. real_splits calendar (fixed z) d c >>= λ z.
            ok (create_jobs_split s section z (at (some d) (some m) (some c)))))
    unfolding Holds real_splits jobs_of chunks_created pick
    separate = create_all_lem s _ test _ (pick s frequency delay) test_lem (λ d c n m t p. refl)

    unified :
        Holds frequency delay
          (λ d m c. at none none (some c))
          (create_unified s section (fixed z) (chunk_due s frequency delay) >>= λ tmp.
            create_all s (chunk_kept tmp test) (λ d m c. shared (get_key c tmp)))
    unfolding Holds shared jobs_of
    unified =
        let (tmp, r, st) = unified_lem frequency delay h in
        let (x, e, holds) =
          create_all_lem s (λ d m c. jobs_of (at none none (some c))) (chunk_kept tmp test)
            (λ d m c. shared (get_key c tmp)) (kept s frequency delay _ tmp st)
            (chunk_kept_lem s frequency delay _ tmp st test test_lem)
            (λ d c n m t p.
              let (v, f, q) = kept_found s frequency delay _ tmp st c n p in rw (f, q) refl) in
        (
          x,
          rw (r, e) refl,
          subst (λ cs. OfDates s cs (λ d m c. jobs_of (at none none (some c))) x)
              (kept_same s frequency delay _ tmp st) holds,
        )

    by_date :
        Holds frequency delay
          (λ d m c. at (some d) none (some c))
          (create_by_date s section (fixed z) (chunk_due s frequency delay) >>= λ tmp.
            create_all s (chunk_kept tmp test) (λ d m c. by_date_of (get_key c tmp) d))
    unfolding Holds shared by_date_of jobs_of
    by_date =
        let (tmp, r, st) = by_date_lem frequency delay h in
        let (x, e, holds) =
          create_all_lem s (λ d m c. jobs_of (at (some d) none (some c))) (chunk_kept tmp test)
            (λ d m c. by_date_of (get_key c tmp) d) (kept s frequency delay _ tmp st)
            (chunk_kept_lem s frequency delay _ tmp st test test_lem)
            (λ d c n m t p.
              let (v, f, q) = kept_found s frequency delay _ tmp st c n p in
              let (u, g, k) = (q d).0 t in rw (f, g, k) refl) in
        (
          x,
          rw (r, e) refl,
          subst (λ cs. OfDates s cs (λ d m c. jobs_of (at (some d) none (some c))) x)
              (kept_same s frequency delay _ tmp st) holds,
        )

    entry-Holds :
        (synchronize : String)
        → Holds frequency delay
            (shared_place synchronize)
            (create_jobs_chunk s section calendar frequency synchronize delay (fixed z))
    unfolding create_jobs_chunk Holds shared_place test
    entry-Holds synchronize = elim (Bool-cases (synchronize == "date")) [
      | inl date ↦ rw (create_jobs_chunk, shared_place, date) unified
      | inr not_date ↦ elim (Bool-cases (synchronize == "member")) [
        | inl member ↦ rw (create_jobs_chunk, shared_place, not_date, member) by_date
        | inr neither ↦ elim (Bool-cases (synchronize == "")) [
          | inl empty ↦ rw (create_jobs_chunk, shared_place, not_date, neither, empty) separate
          | inr other ↦
              let (tmp, r) = tested_lem frequency delay h in
              rw (create_jobs_chunk, shared_place, not_date, neither, other, r) separate
        ]
      ]
    ]

-- With a positive FREQUENCY and a number of splits, `_create_jobs_chunk` returns, and `get_jobs` then
-- finds, for every date, member and chunk that are asked for or left out, exactly the jobs of the
-- wanted dates and members of the experiment and of the chunks that are created, in this order: with
-- SYNCHRONIZE `date` the one set of jobs of the chunk, with `member` those of the date and the chunk,
-- and otherwise those of the date, the member and the chunk.
pub get_jobs-create_jobs_chunk :
    (s : DicJobs) (section : Section) (z : ℤ) (calendar : ℕ → ℕ → Result ℤ) (frequency : ℕ)
    (delay : ℤ)
    → 0 < frequency
    → (synchronize : String) (date : Option ℕ) (member : Option Text) (chunk : Option ℕ)
    → (create_jobs_chunk s section calendar frequency synchronize delay (fixed z) >>= λ entry.
        ok (get_jobs s (some entry) date member chunk))
      ≡ ok (
          wanted s
            (chunks_created s frequency delay)
            (λ d m c. create_jobs_split s section z (shared_place synchronize d m c))
            date
            member
            chunk)
unfolding Holds jobs_of
get_jobs-create_jobs_chunk s section z calendar frequency delay h synchronize date member chunk =
    let (x, r, holds) = entry-Holds s section z calendar frequency delay h synchronize in
    rw r (ap ok (get_jobs_lem s _ _ x holds date member chunk))
