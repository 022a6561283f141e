-- ===== src/Tests/Rounds.antt =====
-- A chain of three jobs, run to its end in three rounds.
use autosubmit.Prelude.{
  ℕ, zero, suc, [], ◌∷◌, ◌≡◌, refl, ◌≢◌, inl, inr, none, string_eq, All, In, arith,
}
use autosubmit.Job.Status.{status_of_key, waiting, completed}
use autosubmit.Job.Record.{Job}
use autosubmit.JobList.State.{JobList, job}
use autosubmit.JobList.Edges.WellFormed.{IsWellFormed}
use autosubmit.JobList.Update.Waiting.Ready.{Settled}
use autosubmit.JobList.Update.Waiting.Progress.{rounds, rounds-Settled, CanGoOn, HasRanks}
use autosubmit.Tests.Samples.{make_job}

abbrev chain_store : ℕ → Job
chain_store zero = make_job "a000_INI" completed [] 0
chain_store (suc zero) = make_job "a000_SIM" waiting (0 ∷ []) 0
chain_store _ = make_job "a000_POST" waiting (1 ∷ []) 0

abbrev chain : JobList
chain = record {
  order = 2 ∷ 1 ∷ 0 ∷ [];
  store = chain_store;
  jobs_edges = [];
  jobs_to_run_first = [];
  cancelled = [];
}

chain-IsWellFormed : IsWellFormed chain
chain-IsWellFormed = record { keys = λ r. by_keys r; names = λ r. by_names r }
  where
    by_keys : (r : ℕ) → All (λ (k, v). status_of_key k ≢ none) (job chain r).edge_info
    by_keys zero = tt
    by_keys (suc zero) = tt
    by_keys _ = tt

    by_names : (r : ℕ) → status_of_key (job chain r).name ≡ none
    by_names zero = unfold status_of_key string_eq in refl
    by_names (suc zero) = unfold status_of_key string_eq in refl
    by_names _ = unfold status_of_key string_eq in refl

chain-HasRanks : (q : ℕ) → In q chain.order → HasRanks (λ r. r) chain q
chain-HasRanks zero m = tt
chain-HasRanks (suc zero) m = ((omega arith, inr (inr (inl refl))), tt)
chain-HasRanks (suc (suc zero)) m = ((omega arith, inr (inl refl)), tt)
chain-HasRanks (suc (suc (suc r))) m = absurd (ground arith)

chain-CanGoOn : (q : ℕ) → In q chain.order → CanGoOn chain q
chain-CanGoOn zero m = inr (inr (inl refl))
chain-CanGoOn (suc zero) m = inl refl
chain-CanGoOn (suc (suc r)) m = inl refl

rounds-Settled_example : Settled (rounds 3 chain) 2
rounds-Settled_example =
    rounds-Settled (λ r. r) 3 chain chain-IsWellFormed chain-HasRanks chain-CanGoOn 2 (inl refl)
      (omega arith)
