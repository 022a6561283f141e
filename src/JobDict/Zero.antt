-- ===== src/JobDict/Zero.antt =====
-- FREQUENCY 0 in `read_section`.
use autosubmit.Prelude.{
  ℕ, ◌≡◌, refl, String, List, ◌∷◌, ◌==◌, nat_eq, string_eq, list_eq, Bool-cases, inl, inr, Result,
  ok, err, zero_division, some,
}
use autosubmit.Prelude.Int.{ℤ, negsuc, Text}
use autosubmit.JobDict.Names.{DicJobs, Section}
use autosubmit.JobDict.Create.{
  fixed, due, create_each, chunk_due, chunk_test, real_splits, after_delay, create_all,
  create_unified, create_by_date, test_chunks, create_jobs_once, create_jobs_startdate,
  create_jobs_member, create_jobs_chunk, SectionData, read_section,
}

abbrev pub without_frequency : ℤ → String → String → SectionData
without_frequency z synchronize running = record {
  splits = fixed z;
  running = running;
  frequency = 0;
  synchronize = synchronize;
  delay = negsuc 0;
}

module _ (s : DicJobs) (section : Section) (d : ℕ) (ds : List ℕ) (m : Text) (ms : List Text) (c : ℕ)
    (cs : List ℕ) (dates : s.date_list ≡ d ∷ ds) (members : s.member_list ≡ m ∷ ms)
    (chunks : s.chunk_list ≡ c ∷ cs) where
  zero-create_jobs_startdate : (z : ℤ) → create_jobs_startdate s section 0 z ≡ err zero_division
  unfolding create_jobs_startdate create_each due nat_eq
  zero-create_jobs_startdate z = rw dates refl

  zero-create_jobs_member : (z : ℤ) → create_jobs_member s section 0 z ≡ err zero_division
  unfolding create_jobs_member create_each due nat_eq list_eq
  zero-create_jobs_member z = rw (dates, members) refl

  zero-create_jobs_chunk :
      (calendar : ℕ → ℕ → Result ℤ) (synchronize : String) (z : ℤ)
      → create_jobs_chunk s section calendar 0 synchronize (negsuc 0) (fixed z) ≡ err zero_division
  unfolding create_jobs_chunk create_unified create_by_date test_chunks create_all create_each
      chunk_test chunk_due real_splits after_delay due nat_eq
  zero-create_jobs_chunk calendar synchronize z = elim (Bool-cases (synchronize == "date")) [
    | inl date ↦ rw (create_jobs_chunk, date, create_unified, chunks) refl
    | inr not_date ↦ elim (Bool-cases (synchronize == "member")) [
      | inl member ↦ rw (create_jobs_chunk, not_date, member, create_by_date, chunks) refl
      | inr neither ↦ elim (Bool-cases (synchronize == "")) [
        | inl empty ↦
            rw (create_jobs_chunk, not_date, neither, empty, create_all, dates, members, chunks)
              refl
        | inr other ↦ rw (create_jobs_chunk, not_date, neither, other, test_chunks, chunks) refl
      ]
    ]
  ]

  -- With FREQUENCY 0, a number of splits, no DELAY, and at least one date, member and chunk, reading a
  -- section that runs by date, by member or by chunk raises ZeroDivisionError, whatever SYNCHRONIZE
  -- says, and one that runs once does not.
  pub read_section-zero_frequency :
      (calendar : ℕ → ℕ → Result ℤ) (z : ℤ) (synchronize : String)
      → (read_section s section calendar (without_frequency z synchronize "date")
          ≡ err zero_division)
        × (read_section s section calendar (without_frequency z synchronize "member")
            ≡ err zero_division)
        × (read_section s section calendar (without_frequency z synchronize "chunk")
            ≡ err zero_division)
        × (read_section s section calendar (without_frequency z synchronize "once")
            ≡ ok (some (create_jobs_once s section z)))
  unfolding read_section string_eq
  read_section-zero_frequency calendar z synchronize = (
    rw (zero-create_jobs_startdate z) refl,
    rw (zero-create_jobs_member z) refl,
    rw (zero-create_jobs_chunk calendar synchronize z) refl,
    refl,
  )
