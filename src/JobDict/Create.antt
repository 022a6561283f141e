-- ===== src/JobDict/Create.antt =====
-- `read_section` and the functions that create the jobs of a section.
use autosubmit.Prelude.{
  ℕ, ◌+◌, ◌%◌, String, Bool, true, false, ◌&&◌, ◌||◌, Option, none, some, List, [], ◌∷◌, ◌==◌, Eq,
  nat_eq, string_eq, list_eq, ltb, if◌then◌else◌, length, Result, ok, err, zero_division,
  type_error, key_error, critical, ◌>>=◌, Map, get_key, set_key,
}
use autosubmit.Prelude.Int.{ℤ, pos, negsuc, Text}
use autosubmit.JobDict.Names.{DicJobs, Section, Place, Built, create_jobs_split}

-- `_dic[section]`, whose shape depends on RUNNING.
pub data Entry : Type 0 where
  once : List Built → Entry
  dates : Map ℕ (List Built) → Entry
  members : Map ℕ (Map Text (List Built)) → Entry
  chunks : Map ℕ (Map Text (Map ℕ (List Built))) → Entry

-- SPLITS: a number, or `auto`.
pub data Splits : Type 0 where
  auto : Splits
  fixed : ℤ → Splits

-- `count % frequency == 0 or count == total`
unfoldable pub due : ℕ → ℕ → ℕ → Result Bool
unfolding nat_eq
due frequency total count =
    if frequency == 0 then err zero_division else ok (count % frequency == 0 || count == total)

module _ {K V : Type 0} ⦃e : Eq K⦄ where
  store : K → Map K V → Result V → Bool → Result (Map K V)
  store k m made false = ok m
  store k m made true = do v ← made; ok (set_key k v m)

  -- The loops below: `count` goes up, and where the test says so the key is assigned.
  unfoldable pub create_each :
      (K → ℕ → Result Bool) → (K → Result V) → List K → ℕ → Map K V → Result (Map K V)
  unfolding store
  create_each test make [] count m = ok m
  create_each test make (k ∷ ks) count m = do
    wanted ← test k (count + 1)
    m' ← store k m (make k) wanted
    create_each test make ks (count + 1) m'

abbrev pub always : {K : Type 0} → K → ℕ → Result Bool
always k count = ok true

abbrev pub at : Option ℕ → Option Text → Option ℕ → Place
at d m c = record { date = d; member = m; chunk = c }

-- `k in d`
abbrev pub is_some : {A : Type 0} → Option A → Bool
is_some none = false
is_some (some a) = true

-- `delay == -1 or delay < chunk`
unfoldable pub after_delay : ℤ → ℕ → Bool
after_delay (pos delay) chunk = ltb delay chunk
after_delay (negsuc n) chunk = true

-- `splits <= 0` on the text `auto` is a TypeError.
unfoldable pub number_of : Splits → Result ℤ
number_of auto = err type_error
number_of (fixed z) = ok z

-- `real_splits`; `calendar_chunk_section` is an argument.
unfoldable pub real_splits : (ℕ → ℕ → Result ℤ) → Splits → ℕ → ℕ → Result ℤ
real_splits calendar auto d c = calendar d c
real_splits calendar (fixed z) d c = ok z

unfoldable pub shared : Option (List Built) → Result (List Built)
shared none = err key_error
shared (some js) = ok js

unfoldable pub by_date_of : Option (Map ℕ (List Built)) → ℕ → Result (List Built)
unfolding get_key shared nat_eq
by_date_of none d = err key_error
by_date_of (some m) d = shared (get_key d m)

-- `and chunk in tmp_dic`
unfoldable pub chunk_kept :
    {V : Type 0} → Map ℕ V → (ℕ → ℕ → ℕ → Result Bool) → ℕ → ℕ → ℕ → Result Bool
unfolding get_key nat_eq
chunk_kept tmp test d c n = do w ← test d c n; ok (w && is_some (get_key c tmp))

module _ (s : DicJobs) where
  unfoldable pub chunk_due : ℕ → ℤ → ℕ → ℕ → Result Bool
  unfolding due after_delay
  chunk_due frequency delay chunk count =
      if after_delay delay chunk then due frequency (length s.chunk_list) count else ok false

  -- The loops over dates, members and chunks; `jobs_at` is the body of the innermost one.
  unfoldable pub create_all :
      (ℕ → ℕ → ℕ → Result Bool) → (ℕ → Text → ℕ → Result (List Built)) → Result Entry
  unfolding create_each nat_eq list_eq
  create_all test jobs_at = do
    m ←
        create_each always
          (λ d.
            create_each always (λ m. create_each (test d) (jobs_at d m) s.chunk_list 0 [])
              s.member_list 0 [])
          s.date_list 0 []
    ok (chunks m)

  -- The test of the innermost loop; `real_splits` is computed before it.
  unfoldable pub chunk_test : (ℕ → ℕ → Result ℤ) → ℕ → ℤ → Splits → ℕ → ℕ → ℕ → Result Bool
  unfolding chunk_due real_splits
  chunk_test calendar frequency delay splits d c count = do
    z ← real_splits calendar splits d c
    chunk_due frequency delay c count

module _ (s : DicJobs) (section : Section) where
  unfoldable pub create_jobs_once : ℤ → Entry
  create_jobs_once splits = once (create_jobs_split s section splits (at none none none))

  unfoldable pub create_jobs_startdate : ℕ → ℤ → Result Entry
  unfolding create_each due nat_eq
  create_jobs_startdate frequency splits = do
    m ←
        create_each (λ d. due frequency (length s.date_list))
          (λ d. ok (create_jobs_split s section splits (at (some d) none none))) s.date_list 0 []
    ok (dates m)

  unfoldable pub create_jobs_member : ℕ → ℤ → Result Entry
  unfolding create_each due nat_eq list_eq
  create_jobs_member frequency splits = do
    m ←
        create_each always
          (λ d.
            create_each (λ m. due frequency (length s.member_list))
              (λ m. ok (create_jobs_split s section splits (at (some d) (some m) none)))
              s.member_list 0 [])
          s.date_list 0 []
    ok (members m)

  -- The jobs of all dates and members, by chunk: `tmp_dic` where SYNCHRONIZE is `date`.
  unfoldable pub create_unified : Splits → (ℕ → ℕ → Result Bool) → Result (Map ℕ (List Built))
  unfolding create_each number_of nat_eq
  create_unified splits test =
      create_each test
        (λ c. number_of splits >>= λ z. ok (create_jobs_split s section z (at none none (some c))))
        s.chunk_list 0 []

  -- The same by chunk and date, where it is `member`.
  unfoldable pub create_by_date :
      Splits → (ℕ → ℕ → Result Bool) → Result (Map ℕ (Map ℕ (List Built)))
  unfolding create_each number_of nat_eq
  create_by_date splits test =
      create_each test
        (λ c.
          create_each always
            (λ d. number_of splits >>= λ z.
              ok (create_jobs_split s section z (at (some d) none (some c))))
            s.date_list 0 [])
        s.chunk_list 0 []

  -- The first loop where SYNCHRONIZE is another text: the tests alone, which may raise.
  unfoldable pub test_chunks : (ℕ → ℕ → Result Bool) → Result (Map ℕ (List Built))
  unfolding create_each nat_eq
  test_chunks test = create_each test (λ c. ok []) s.chunk_list 0 []

  unfoldable pub create_jobs_chunk : (ℕ → ℕ → Result ℤ) → ℕ → String → ℤ → Splits → Result Entry
  unfolding create_unified create_by_date test_chunks create_all chunk_due chunk_test chunk_kept
      real_splits shared by_date_of get_key nat_eq string_eq
  create_jobs_chunk calendar frequency synchronize delay splits =
      if synchronize == "date"
      then (do
        tmp ← create_unified splits (chunk_due s frequency delay)
        create_all s (chunk_kept tmp test) (λ d m c. shared (get_key c tmp)))
      else if synchronize == "member"
      then (do
        tmp ← create_by_date splits (chunk_due s frequency delay)
        create_all s (chunk_kept tmp test) (λ d m c. by_date_of (get_key c tmp) d))
      else if synchronize == ""
      then separate
      else (test_chunks (chunk_due s frequency delay) >>= λ tmp. separate)
    where
      test : ℕ → ℕ → ℕ → Result Bool
      test = chunk_test s calendar frequency delay splits

      separate : Result Entry
      separate = create_all s test (λ d m c. real_splits calendar splits d c >>= λ z.
          ok (create_jobs_split s section z (at (some d) (some m) (some c))))

-- The values of the section that `read_section` reads.
pub record SectionData : Type 0 where
  pub splits : Splits
  pub running : String
  pub frequency : ℕ
  pub synchronize : String
  pub delay : ℤ

-- An unknown RUNNING creates nothing.
unfoldable pub read_section :
    DicJobs → Section → (ℕ → ℕ → Result ℤ) → SectionData → Result (Option Entry)
unfolding create_jobs_once create_jobs_startdate create_jobs_member create_jobs_chunk string_eq
read_section s section calendar p =
    if p.running == "chunk"
    then (create_jobs_chunk s section calendar p.frequency p.synchronize p.delay p.splits >>= found)
    else elim p.splits [
      | auto ↦ err critical
      | fixed z ↦
          if p.running == "once"
          then ok (some (create_jobs_once s section z))
          else if p.running == "date"
          then (create_jobs_startdate s section p.frequency z >>= found)
          else if p.running == "member"
          then (create_jobs_member s section p.frequency z >>= found)
          else ok none
    ]
  where
    found : Entry → Result (Option Entry)
    found e = ok (some e)
