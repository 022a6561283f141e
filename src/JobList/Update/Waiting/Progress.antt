-- ===== src/JobList/Update/Waiting/Progress.antt =====
-- Rounds of `update_waiting` and of platforms that run every READY job to its end.
use autosubmit.Prelude.{
  ℕ, zero, suc, ◌+◌, ◌<◌, ◌≡◌, sym, ap, ◌∙◌, subst, ◌⊎◌, inl, true, ◌==◌, nat_eq, All, All-map, In,
  if◌then◌else◌, arith,
}
use autosubmit.Job.Status.{status_eq, Status-discrete, waiting, ready, completed}
use autosubmit.Job.Record.{Job}
use autosubmit.JobList.State.{JobList, job, status_of}
use autosubmit.JobList.Edges.WellFormed.{IsWellFormed, IsWellFormed-NeverOptional}
use autosubmit.JobList.Update.Waiting.{is_optional, update_waiting}
use autosubmit.JobList.Update.Waiting.Keeps.{update_waiting-Frame}
use autosubmit.JobList.Update.Waiting.Parents.{
  NeverOptional, every_done, next_of, update_waiting_lem, update_waiting-NeverOptional,
}
use autosubmit.JobList.Update.Waiting.Ready.{Settled, All→every_done}

-- What the platforms do to a job between two rounds.
unfoldable pub finished : Job → Job
unfolding status_eq Status-discrete
finished j = if j.status == ready then record j { status = completed } else j

unfoldable pub round : JobList → JobList
unfolding finished update_waiting
round l = let l' = update_waiting l in record l' { store = λ q. finished (l'.store q) }

unfoldable pub rounds : ℕ → JobList → JobList
unfolding round
rounds zero l = l
rounds (suc n) l = rounds n (round l)

-- A job that no failure or hold keeps back.
abbrev pub CanGoOn : JobList → ℕ → Type 0
CanGoOn l q = (status_of l q ≡ waiting) ⊎ ((status_of l q ≡ ready) ⊎ Settled l q)

-- The parents of a job of the list are in the list, with smaller ranks.
abbrev pub HasRanks : (ℕ → ℕ) → JobList → ℕ → Type 0
HasRanks rank l q = All (λ p. (rank p < rank q) × In p l.order) (job l q).parents

record IsAlive (rank : ℕ → ℕ) (l : JobList) : Type 0 where
  free : NeverOptional l
  ranks : (q : ℕ) → In q l.order → HasRanks rank l q
  going : (q : ℕ) → In q l.order → CanGoOn l q

-- Every job below the rank is settled.
abbrev SettledBelow : (ℕ → ℕ) → ℕ → JobList → Type 0
SettledBelow rank k l = (q : ℕ) → In q l.order → rank q < k → Settled l q

finished_fields :
    (j : Job)
    → ((finished j).name ≡ j.name)
      × ((finished j).edge_info ≡ j.edge_info)
      × ((finished j).parents ≡ j.parents)
unfolding finished
finished_fields j = ground arith

round_order : (l : JobList) → (round l).order ≡ l.order
unfolding round
round_order l = (update_waiting-Frame l).order_same

module _ {rank : ℕ → ℕ} {l : JobList} (a : IsAlive rank l) where
  round_free : NeverOptional (round l)
  unfolding round is_optional
  round_free r p =
      let u = update_waiting l in
      rw ((finished_fields (u.store r)).1, (finished_fields (u.store p)).0)
        (update_waiting-NeverOptional l a.free r p)

  round_parents : (q : ℕ) → (job (round l) q).parents ≡ (job l q).parents
  unfolding round
  round_parents q =
      (finished_fields ((update_waiting l).store q)).2
      ∙ ((update_waiting-Frame l).jobs q).parents_same

  round_store : (q : ℕ) → In q l.order → (round l).store q ≡ finished (next_of l q)
  unfolding round
  round_store q m = ap finished (update_waiting_lem l a.free q m)

  step_going : (q : ℕ) → In q l.order → CanGoOn (round l) q
  unfolding finished
  step_going q m = ground (arith, round_store q m, a.going q m)

  step-Settled :
      (q : ℕ) → In q l.order → (every_done l q ≡ true) ⊎ Settled l q → Settled (round l) q
  unfolding finished
  step-Settled q m d = ground (arith, round_store q m, a.going q m)

  round-IsAlive : IsAlive rank (round l)
  round-IsAlive = record {
    free = round_free;
    ranks = λ q m. ranks_of q (subst (In q) (round_order l) m);
    going = λ q m. step_going q (subst (In q) (round_order l) m);
  }
    where
      ranks_of : (q : ℕ) → In q l.order → HasRanks rank (round l) q
      ranks_of q m = rw (round_parents q, round_order l) (a.ranks q m)

  round-SettledBelow : (k : ℕ) → SettledBelow rank k l → SettledBelow rank (suc k) (round l)
  round-SettledBelow k h q m b =
      step-Settled q (here m) (inl (All→every_done l q (parents (here m))))
    where
      here : In q (round l).order → In q l.order
      here i = subst (In q) (round_order l) i

      parents : In q l.order → All (Settled l) (job l q).parents
      parents i =
          All-map (λ p (lower, there). h p there (omega arith)) (job l q).parents (a.ranks q i)

rounds-SettledBelow :
    {rank : ℕ → ℕ} (n k : ℕ) (l : JobList)
    → IsAlive rank l
    → SettledBelow rank k l
    → (q : ℕ) → In q l.order
    → rank q < n + k
    → Settled (rounds n l) q
unfolding rounds
rounds-SettledBelow zero k l a h q m b = h q m (omega arith)
rounds-SettledBelow (suc n) k l a h q m b =
    rounds-SettledBelow n (suc k) (round l) (round-IsAlive a) (round-SettledBelow a k h) q
      (subst (In q) (sym (round_order l)) m) (omega arith)

-- In a well-formed list where the parents of each job of the list are in the list and have smaller
-- ranks, and each job of the list is WAITING, READY, COMPLETED or SKIPPED, every job of the list with
-- a rank below `n` is COMPLETED or SKIPPED after `n` rounds of `update_waiting` and of platforms that
-- complete the READY jobs: no job waits for ever.
pub rounds-Settled :
    (rank : ℕ → ℕ) (n : ℕ) (l : JobList)
    → IsWellFormed l
    → ((q : ℕ) → In q l.order → HasRanks rank l q)
    → ((q : ℕ) → In q l.order → CanGoOn l q)
    → (q : ℕ) → In q l.order
    → rank q < n
    → Settled (rounds n l) q
rounds-Settled rank n l w ranks going q m b =
    rounds-SettledBelow n 0 l alive (λ p i z. absurd (omega arith)) q m (omega arith)
  where
    alive : IsAlive rank l
    alive = record { free = IsWellFormed-NeverOptional w; ranks = ranks; going = going }
