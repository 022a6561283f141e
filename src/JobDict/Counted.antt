-- ===== src/JobDict/Counted.antt =====
-- What `get_jobs` finds for the sections that run by date or by member.
use autosubmit.Prelude.{
  ℕ, ◌<◌, ◌%◌, ◌≡◌, refl, ap, ◌∙◌, ◌||◌, Option, none, some, List, [], append_nil, map, filter,
  ◌==◌, contains, nat_eq, list_eq, length, ok, ◌>>=◌, Map, get_key, arith,
}
use autosubmit.Prelude.Int.{ℤ, Text}
use autosubmit.JobDict.Names.{DicJobs, Section, Built, create_jobs_split}
use autosubmit.JobDict.Create.{due, create_each, at, create_jobs_startdate, create_jobs_member}
use autosubmit.JobDict.Flatten.{flatten, flatten-flatten, flatten-filter}
use autosubmit.JobDict.Get.{dates_of, members_of, member_jobs, date_jobs, date_members, get_jobs}
use autosubmit.JobDict.Loops.{chosen, Stored, create_each_lem}
use autosubmit.JobDict.Chunks.{create_every_lem}

-- Every so many of the keys, and the last one.
abbrev every : {K : Type 0} → ℕ → List K → List K
every frequency ks = chosen (λ k n. n % frequency == 0 || n == length ks) 0 ks

due_lem :
    (frequency total n : ℕ)
    → 0 < frequency
    → due frequency total n ≡ ok (n % frequency == 0 || n == total)
unfolding due nat_eq
due_lem frequency total n h = ground arith

module _ (s : DicJobs) (section : Section) (z : ℤ) (frequency : ℕ)
    (some_frequency : 0 < frequency) where
  -- With a positive FREQUENCY, the creation of a section that runs by date returns, and `get_jobs`
  -- then finds the jobs of every FREQUENCY-th date and of the last one, as far as they are asked for.
  get_jobs-create_jobs_startdate :
      (date : Option ℕ) (member : Option Text) (chunk : Option ℕ)
      → (create_jobs_startdate s section frequency z >>= λ entry.
          ok (get_jobs s (some entry) date member chunk))
        ≡ ok (
            flatten (
              map
                (λ d. create_jobs_split s section z (at (some d) none none))
                (filter (contains (every frequency s.date_list)) (dates_of s date))))
  unfolding create_jobs_startdate get_jobs date_jobs get_key
  get_jobs-create_jobs_startdate date member chunk =
      let (x, r, st) =
        create_each_lem (λ d v. v ≡ create_jobs_split s section z (at (some d) none none))
          (λ d. due frequency (length s.date_list)) _
          (λ d n. n % frequency == 0 || n == length s.date_list)
          (λ d n. due_lem frequency (length s.date_list) n some_frequency) s.date_list 0 []
          (λ d n c p. (_, refl, refl)) in
      rw r (
        ap ok (
          flatten-filter (λ d. date_jobs d x) _ (contains (every frequency s.date_list))
            (λ d t. let (v, e, q) = (st d).0 t in rw (e, date_jobs) q)
            (λ d f. rw ((st d).1 f, date_jobs) refl) (dates_of s date)))

  at_member : ℕ → Text → List Built
  at_member d m = create_jobs_split s section z (at (some d) (some m) none)

  abbrev OfMember : ℕ → Map Text (List Built) → Type 0
  OfMember d x = Stored (λ m v. v ≡ at_member d m) (every frequency s.member_list) [] x

  by_member :
      (d : ℕ)
      → (x : Map Text (List Built)) × (create_each
            (λ m. due frequency (length s.member_list))
            (λ m. ok (create_jobs_split s section z (at (some d) (some m) none)))
            s.member_list
            0
            []
          ≡ ok x)
        × OfMember d x
  unfolding at_member
  by_member d =
      create_each_lem (λ m v. v ≡ at_member d m) (λ m. due frequency (length s.member_list)) _
        (λ m n. n % frequency == 0 || n == length s.member_list)
        (λ m n. due_lem frequency (length s.member_list) n some_frequency) s.member_list 0 []
        (λ m n c p. (_, refl, refl))

  -- The jobs of one date.
  member_jobs_lem :
      (d : ℕ) (x : Map Text (List Built))
      → OfMember d x
      → (ms : List Text)
      → flatten (flatten (map (λ m. member_jobs m x) ms))
        ≡ flatten (map (at_member d) (filter (contains (every frequency s.member_list)) ms))
  unfolding member_jobs get_key
  member_jobs_lem d x st ms =
      flatten-flatten (λ m. member_jobs m x) ms
      ∙ flatten-filter _ (at_member d) (contains (every frequency s.member_list))
          (λ m t. let (v, e, q) = (st m).0 t in rw (e, member_jobs) (append_nil v ∙ q))
          (λ m f. rw ((st m).1 f, member_jobs) refl) ms

  -- With a positive FREQUENCY, the creation of a section that runs by member returns, and `get_jobs`
  -- then finds, for every date of the experiment that is asked for, the jobs of every FREQUENCY-th
  -- member and of the last one, as far as they are asked for.
  get_jobs-create_jobs_member :
      (date : Option ℕ) (member : Option Text) (chunk : Option ℕ)
      → (create_jobs_member s section frequency z >>= λ entry.
          ok (get_jobs s (some entry) date member chunk))
        ≡ ok (
            flatten (
              map
                (λ d. flatten (
                  map
                    (λ m. create_jobs_split s section z (at (some d) (some m) none))
                    (filter (contains (every frequency s.member_list)) (members_of s member))))
                (filter (contains s.date_list) (dates_of s date))))
  unfolding create_jobs_member get_jobs date_members get_key at_member
  get_jobs-create_jobs_member date member chunk =
      let (x, r, st) = create_every_lem OfMember _ s.date_list (λ d t. by_member d) in
      rw r (
        ap ok (
          flatten-flatten (λ d. date_members s member d x) (dates_of s date)
          ∙ flatten-filter _ _ (contains s.date_list)
              (λ d t.
                let (v, e, q) = (st d).0 t in
                rw (e, date_members) (member_jobs_lem d v q (members_of s member)))
              (λ d f. rw ((st d).1 f, date_members) refl) (dates_of s date)))
