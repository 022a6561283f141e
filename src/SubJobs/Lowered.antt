-- ===== src/SubJobs/Lowered.antt =====
-- The relation between the jobs before and after `process_times` (autosubmit/job/job_utils.py).
use autosubmit.Prelude.{
  set_key, ℕ, ◌≤◌, ◌≡◌, refl, sym, ◌∙◌, subst, inl, inr, String, List, [], ◌∷◌, All, Map, ◌==◌,
  ==-eq, nat_eq, string_eq, Result, ok, ok_same, >>=-eq-ok, for_each, arith, Bool-cases,
}
use autosubmit.JobList.Update.Frame.{for_each-keeps, All-tt}
use autosubmit.SubJobs.Order.{set_queue, write_queue, write_fixes}
use autosubmit.SubJobs.{SubJob, SubJobManager, change_subjob, find_name}

-- One job before and after.
pub record Slower (s s' : SubJob) : Type 0 where
  pub queue_le : s.queue ≤ s'.queue
  pub run_same : s.run ≡ s'.run
  pub total_same : s.total ≡ s'.total
  pub name_same : s.name ≡ s'.name

-- The manager afterwards, and before.
pub record Lowered (m m' : SubJobManager) : Type 0 where
  pub jobs_slower : (q : ℕ) → Slower (m'.at q) (m.at q)
  pub index_same : m'.subjobindex ≡ m.subjobindex

pub Slower-trans : {a b c : SubJob} → Slower a b → Slower b c → Slower a c
Slower-trans x y = record {
  queue_le = omega (arith, x.queue_le, y.queue_le);
  run_same = x.run_same ∙ y.run_same;
  total_same = x.total_same ∙ y.total_same;
  name_same = x.name_same ∙ y.name_same;
}

pub Slower-refl : (a : SubJob) → Slower a a
Slower-refl a = record {
  queue_le = omega arith;
  run_same = refl;
  total_same = refl;
  name_same = refl;
}

pub unchanged_times :
    {a b : SubJob}
    → a.queue ≡ b.queue
    → a.run ≡ b.run
    → a.total ≡ b.total
    → a.name ≡ b.name
    → Slower a b
unchanged_times q r t n = record {
  queue_le = omega (arith, q);
  run_same = r;
  total_same = t;
  name_same = n;
}

pub Lowered-refl : (m : SubJobManager) → Lowered m m
Lowered-refl m = record { jobs_slower = λ q. Slower-refl (m.at q); index_same = refl }

pub Lowered-trans : {m m' m'' : SubJobManager} → Lowered m m' → Lowered m' m'' → Lowered m m''
Lowered-trans x y = record {
  jobs_slower = λ q. Slower-trans (y.jobs_slower q) (x.jobs_slower q);
  index_same = y.index_same ∙ x.index_same;
}

pub change_subjob-Lowered :
    (r : ℕ) (f : SubJob → SubJob) (m m' : SubJobManager)
    → Lowered m m'
    → Slower (f (m'.at r)) (m.at r)
    → Lowered m (change_subjob r f m')
unfolding change_subjob
change_subjob-Lowered r f m m' low h = record {
  jobs_slower = λ q. elim (Bool-cases (q == r)) [
    | inl e ↦ rw e (subst (λ x. Slower (f (m'.at x)) (m.at x)) (sym (==-eq q r e)) h)
    | inr e ↦ rw e (low.jobs_slower q)
  ];
  index_same = low.index_same;
}

-- A loop over anything keeps what each step keeps.
pub for_each-Holds {ℓ} :
    {A S : Type 0} (P : S → Type ℓ) (body : A → S → Result S)
    → ((a : A) (s s' : S) → P s → body a s ≡ ok s' → P s')
    → (xs : List A) (s s' : S) → P s
    → for_each body xs s ≡ ok s'
    → P s'
for_each-Holds P body step xs s s' =
    for_each-keeps P (λ _. Unit {0}) body (λ a t. step a) xs (All-tt xs) s s'

-- A queue time to write is no longer than the one of the job in the index.
unfoldable pub Entry : SubJobManager → String × ℕ → Type 0
Entry m (k, v) = (r : ℕ) → find_name k m.subjobindex ≡ ok r → v ≤ (m.at r).queue

pub All-Entry-set_key :
    (m : SubJobManager) (k : String) (v : ℕ) (d : Map String ℕ)
    → Entry m (k, v)
    → All (Entry m) d
    → All (Entry m) (set_key k v d)
unfolding set_key
All-Entry-set_key m k v [] new h = (new, tt)
All-Entry-set_key m k v ((j, w) ∷ d) new h = elim (Bool-cases (k == j)) [
  | inl e ↦ rw e (subst (λ x. Entry m (x, v)) (==-eq k j e) new, h.1)
  | inr e ↦ rw e (h.0, All-Entry-set_key m k v d new h.1)
]

pub write_queue-Lowered :
    (m0 : SubJobManager) (e : String × ℕ) (m m' : SubJobManager)
    → Entry m0 e
    → Lowered m0 m
    → write_queue e m ≡ ok m'
    → Lowered m0 m'
unfolding write_queue Entry
write_queue-Lowered m0 (k, v) m m' new low h =
    let (r, found, same) =
      >>=-eq-ok (find_name k m.subjobindex) (λ r. ok (change_subjob r (set_queue v) m)) h in
    subst (Lowered m0) (ok_same same) (
      change_subjob-Lowered r (set_queue v) m0 m low (record {
        queue_le = new r (subst (λ d. find_name k d ≡ ok r) low.index_same found);
        run_same = (low.jobs_slower r).run_same;
        total_same = (low.jobs_slower r).total_same;
        name_same = (low.jobs_slower r).name_same;
      }))

pub write_fixes-Lowered :
    (m0 : SubJobManager) (fixes : Map String ℕ) (m : SubJobManager)
    → Lowered m0 m
    → Lowered m0 (write_fixes fixes m)
unfolding write_fixes
write_fixes-Lowered m0 fixes m low = record {
  jobs_slower = low.jobs_slower;
  index_same = low.index_same;
}

-- A change of attributes that lowers a queue time at most.
pub same_times :
    (m0 : SubJobManager) (r : ℕ) (f : SubJob → SubJob) (m : SubJobManager)
    → ((s : SubJob) → Slower (f s) s)
    → Lowered m0 m
    → Lowered m0 (change_subjob r f m)
same_times m0 r f m h low =
    change_subjob-Lowered r f m0 m low (Slower-trans (h (m.at r)) (low.jobs_slower r))
