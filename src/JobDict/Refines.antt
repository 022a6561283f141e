-- ===== src/JobDict/Refines.antt =====
-- What `get_jobs` finds after `_create_jobs_chunk`: the jobs of the wanted dates, members and chunks,
-- whatever the dictionary in between looks like.
use autosubmit.Prelude.{
  ℕ, ◌≡◌, refl, ◌∙◌, true, false, Option, some, List, [], ◌∷◌, map, filter, contains, nat_eq,
  string_eq, list_eq, Bool-cases, inl, inr, Map, get_key,
}
use autosubmit.Prelude.Int.{Text}
use autosubmit.JobDict.Names.{DicJobs, Built}
use autosubmit.JobDict.Create.{chunks}
use autosubmit.JobDict.Flatten.{flatten, flatten-flatten, flatten-filter}
use autosubmit.JobDict.Get.{
  dates_of, members_of, chunks_of, found_in, member_chunks, date_chunks, get_jobs,
}
use autosubmit.JobDict.Loops.{Stored}

-- The jobs of the places that are asked for and exist, in the order of the question. `J` gives the
-- jobs of a place, and `cs` are the chunks that have any.
unfoldable pub wanted :
    DicJobs → List ℕ → (ℕ → Text → ℕ → List Built) → Option ℕ → Option Text → Option ℕ → List Built
unfolding nat_eq list_eq
wanted s cs J date member chunk = flatten (
    map
      (λ d. flatten (
        map (λ m. flatten (map (J d m) (filter (contains cs) (chunks_of s chunk))))
          (filter (contains s.member_list) (members_of s member))))
      (filter (contains s.date_list) (dates_of s date)))

module _ (s : DicJobs) (cs : List ℕ) (J : ℕ → Text → ℕ → List Built) where
  -- A dictionary that holds what `J` says, at each level.
  abbrev pub OfChunks : ℕ → Text → Map ℕ (List Built) → Type 0
  OfChunks d m x = Stored (λ c v. v ≡ J d m c) cs [] x

  abbrev pub OfMembers : ℕ → Map Text (Map ℕ (List Built)) → Type 0
  OfMembers d x = Stored (OfChunks d) s.member_list [] x

  abbrev pub OfDates : Map ℕ (Map Text (Map ℕ (List Built))) → Type 0
  OfDates x = Stored OfMembers s.date_list [] x

  found_in_lem :
      (d : ℕ) (m : Text) (x : Map ℕ (List Built))
      → OfChunks d m x
      → (ks : List ℕ) → flatten (found_in ks x) ≡ flatten (map (J d m) (filter (contains cs) ks))
  unfolding found_in get_key
  found_in_lem d m x st [] = refl
  found_in_lem d m x st (k ∷ ks) = elim (Bool-cases (contains cs k)) [
    | inl t ↦ let (v, e, q) = (st k).0 t in rw (t, e, q, found_in, found_in_lem d m x st ks) refl
    | inr f ↦ rw (f, (st k).1 f, found_in) (found_in_lem d m x st ks)
  ]

  member_chunks_lem :
      (d : ℕ) (x : Map Text (Map ℕ (List Built)))
      → OfMembers d x
      → (chunk : Option ℕ) (m : Text)
      → (contains s.member_list m ≡ true
          → flatten (member_chunks s chunk m x)
            ≡ flatten (map (J d m) (filter (contains cs) (chunks_of s chunk))))
        × (contains s.member_list m ≡ false → flatten (member_chunks s chunk m x) ≡ [])
  unfolding member_chunks get_key
  member_chunks_lem d x st chunk m = (present, λ f. rw ((st m).1 f, member_chunks) refl)
    where
      present :
          contains s.member_list m ≡ true
          → flatten (member_chunks s chunk m x)
            ≡ flatten (map (J d m) (filter (contains cs) (chunks_of s chunk)))
      present t =
          let (v, e, q) = (st m).0 t in
          rw (e, member_chunks) (found_in_lem d m v q (chunks_of s chunk))

  -- The jobs of one date, over the members that are asked for and exist.
  of_date : Option Text → Option ℕ → ℕ → List Built
  unfolding nat_eq list_eq
  of_date member chunk d = flatten (
      map (λ m. flatten (map (J d m) (filter (contains cs) (chunks_of s chunk))))
        (filter (contains s.member_list) (members_of s member)))

  date_chunks_lem :
      (x : Map ℕ (Map Text (Map ℕ (List Built))))
      → OfDates x
      → (member : Option Text) (chunk : Option ℕ) (d : ℕ)
      → (contains s.date_list d ≡ true
          → flatten (date_chunks s member chunk d x) ≡ of_date member chunk d)
        × (contains s.date_list d ≡ false → flatten (date_chunks s member chunk d x) ≡ [])
  unfolding date_chunks get_key of_date
  date_chunks_lem x st member chunk d = (present, λ f. rw ((st d).1 f, date_chunks) refl)
    where
      present :
          contains s.date_list d ≡ true
          → flatten (date_chunks s member chunk d x) ≡ of_date member chunk d
      present t =
          let (v, e, q) = (st d).0 t in
          rw (e, date_chunks)
            (flatten-flatten (λ m. member_chunks s chunk m v) (members_of s member)
              ∙ flatten-filter _ _ (contains s.member_list)
                  (λ m. (member_chunks_lem d v q chunk m).0)
                  (λ m. (member_chunks_lem d v q chunk m).1) (members_of s member))

  pub get_jobs_lem :
      (x : Map ℕ (Map Text (Map ℕ (List Built))))
      → OfDates x
      → (date : Option ℕ) (member : Option Text) (chunk : Option ℕ)
      → get_jobs s (some (chunks x)) date member chunk ≡ wanted s cs J date member chunk
  unfolding get_jobs wanted of_date
  get_jobs_lem x st date member chunk =
      flatten-flatten (λ d. date_chunks s member chunk d x) (dates_of s date)
      ∙ flatten-filter _ (of_date member chunk) (contains s.date_list)
          (λ d. (date_chunks_lem x st member chunk d).0)
          (λ d. (date_chunks_lem x st member chunk d).1) (dates_of s date)
