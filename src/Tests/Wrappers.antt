-- ===== src/Tests/Wrappers.antt =====
-- The theorems on wrappers and on the change of a status at work.
use autosubmit.Prelude.{
  ◌↔◌, ℕ, zero, suc, ◌≡◌, ◌≢◌, refl, ◌⊎◌, inl, inr, Bool, true, false, contains, [], ◌∷◌, ◌++◌, ok,
  nat_eq, list_eq, arith,
}
use autosubmit.Job.Status.{submitted, queuing, running, failed, unknown, status_eq}
use autosubmit.Job.Record.{Job, Store}
use autosubmit.Job.Update.{is_active, fail_active, update_children_status}
use autosubmit.Job.Update.Children.{
  Failed, IsClosed, IsSpread, weight, update_children_status-IsSpread,
}
use autosubmit.Prelude.Int.{Text}
use autosubmit.Wrapper.Reason.{codes, queuing_reason_cancel}
use autosubmit.Wrapper.Reason.Cancelled.{NamesHopeless, queuing_reason_cancel_iff}
use autosubmit.Wrapper.State.{nothing, empty, Remote, Wrapper}
use autosubmit.Wrapper.Check.{is_empty, check_status}
use autosubmit.Wrapper.Freed.{IsSettled}
use autosubmit.Wrapper.Settles.{check_status-IsSettled}
use autosubmit.Tests.Samples.{make_job}

-- Job 0 runs, and so do its child 1 and the child of that, 2.
abbrev with_child : ℕ → Job
with_child r = record (make_job "a000_SIM" running [] 0) { children = r ∷ [] }

abbrev chain : Store
chain zero = with_child 1
chain (suc zero) = with_child 2
chain (suc (suc n)) = make_job "a000_POST" running [] 0

chain-IsClosed : IsClosed (0 ∷ 1 ∷ 2 ∷ []) chain
chain-IsClosed zero m q k = elim k [ inl e ↦ inr (inl e) | inr x ↦ elim x [ ] ]
chain-IsClosed (suc zero) m q k = elim k [ inl e ↦ inr (inr (inl e)) | inr x ↦ elim x [ ] ]
chain-IsClosed (suc (suc n)) m q k = elim k [ ]

update_children_status-IsSpread_example :
    IsSpread (1 ∷ []) chain ((fail_active 5 (1 ∷ []) chain).0, update_children_status 5 0 chain)
    × ((q : ℕ) → Failed (chain q) (update_children_status 5 0 chain q))
update_children_status-IsSpread_example =
    update_children_status-IsSpread 5 0 (0 ∷ 1 ∷ 2 ∷ []) chain chain-IsClosed (inl refl)
      (unfold weight is_active nat_eq status_eq in omega arith)

-- "PENDING(QOSJobLimit"
abbrev unclosed : Text
unclosed = codes "PENDING" ++ (b'(' ∷ codes "QOSJobLimit")

queuing_reason_cancel_iff_example : (queuing_reason_cancel unclosed ≡ true) ↔ NamesHopeless unclosed
queuing_reason_cancel_iff_example = queuing_reason_cancel_iff unclosed

-- A platform on which no job has finished and no output is there yet.
abbrev remote : Remote
remote = record {
  answers = record { completed_names = λ n r. false; fuel = 10 };
  is_slurm = true;
  queue_reason = λ n. [];
  completed_files = λ n. empty;
  checker_output = λ n names. [];
  wrapper_failed = λ n. false;
  failed_file = λ n r. true;
  get_failed_file = λ n r. true;
  is_over_wallclock = λ n t r. false;
}

remote_answers : (n : ℕ) → remote.completed_files n ≢ nothing
remote_answers n h = cc

abbrev wrapper : Wrapper
wrapper = record {
  job_list = 0 ∷ 1 ∷ 2 ∷ [];
  status = queuing;
  prev_status = submitted;
  new_status = failed;
  failed = false;
  hold = false;
  inner_jobs_running = [];
  running_jobs_start = [];
  store = chain;
  asked = 0;
  sent = [];
}

check_status-IsSettled_example :
    (v : Wrapper) × (check_status remote failed wrapper ≡ ok v)
    × (v.status ≡ failed)
    × (v.job_list ≡ 0 ∷ 1 ∷ 2 ∷ [])
    × (IsSettled v
        ⊎ ((contains (submitted ∷ queuing ∷ failed ∷ unknown ∷ []) queuing ≡ false)
            × (◌≡◌ {A = Bool} false false)
            × (is_empty [] ≡ false)))
check_status-IsSettled_example =
    check_status-IsSettled remote remote_answers (λ n names. tt) failed wrapper
      (unfold status_eq in refl)
