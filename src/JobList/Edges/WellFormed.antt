-- ===== src/JobList/Edges/WellFormed.antt =====
-- In a well-formed job list the keys of `edge_info` are names of statuses, and no job is named so.
use autosubmit.Prelude.{
  ℕ, ◌≡◌, refl, sym, ap, ◌∙◌, subst, ◌≢◌, ◌⊎◌, inl, inr, String, Option, none, some, [], ◌∷◌, ◌==◌,
  nat_eq, string_eq, Bool-cases, All, arith,
}
use autosubmit.Job.Status.{status_of_key}
use autosubmit.Job.Record.{Job, Dict}
use autosubmit.JobList.State.{JobList, job, modify_all}
use autosubmit.JobList.Update.Special.{lookup}
use autosubmit.JobList.Update.Waiting.{is_optional}
use autosubmit.JobList.Update.Waiting.Parents.{NeverOptional}
use autosubmit.JobList.Edges.{
  insert, raise_step, update_key, add_edge_info, add_edges_map_info, add_special_conditions,
}

-- The keys of the dictionary are names of statuses.
abbrev pub StatusKeys : {V : Type 0} → Dict V → Type 0
StatusKeys d = All (λ (k, v). status_of_key k ≢ none) d

pub record IsWellFormed (l : JobList) : Type 0 where
  pub keys : (r : ℕ) → StatusKeys (job l r).edge_info
  pub names : (r : ℕ) → status_of_key (job l r).name ≡ none

lookup-StatusKeys :
    {V : Type 0} (k : String) (d : Dict V)
    → StatusKeys d
    → status_of_key k ≡ none
    → lookup k d ≡ none
unfolding lookup string_eq
lookup-StatusKeys k [] h e = refl
lookup-StatusKeys k ((j, v) ∷ d) h e = elim (dec_of k j) [
  | inl same ↦ absurd (h.0 (subst (λ x. status_of_key x ≡ none) same e))
  | inr differ ↦ ground (arith, lookup-StatusKeys k d h.1 e)
]
  where
    dec_of : (a b : String) → (a ≡ b) ⊎ (a ≢ b)
    dec_of a b = elim (string_eq.dec a b) [ yes p ↦ inl p | no n ↦ inr n ]

-- A well-formed list has no optional parent.
pub IsWellFormed-NeverOptional : {l : JobList} → IsWellFormed l → NeverOptional l
unfolding is_optional
IsWellFormed-NeverOptional {l} w r p =
    rw (lookup-StatusKeys (job l p).name (job l r).edge_info (w.keys r) (w.names p), is_optional)

update_key-StatusKeys :
    {V : Type 0} (k : String) (start : V) (f : V → V) (d : Dict V)
    → status_of_key k ≢ none
    → StatusKeys d
    → StatusKeys (update_key k start f d)
unfolding update_key
update_key-StatusKeys k start f [] e h = (e, tt)
update_key-StatusKeys k start f ((j, v) ∷ d) e h = elim (Bool-cases (k == j)) [
  | inl t ↦ rw t h
  | inr f' ↦ rw f' (h.0, update_key-StatusKeys k start f d e h.1)
]

add_edge_info-StatusKeys :
    (status name : String) (parent : ℕ) (step : Option ℕ) (j : Job)
    → status_of_key status ≢ none
    → StatusKeys j.edge_info
    → StatusKeys (add_edge_info status name parent step j).edge_info
unfolding add_edge_info
add_edge_info-StatusKeys status name parent step j e h =
    update_key-StatusKeys status [] (insert name (record { parent = parent; from_step = step }))
      j.edge_info e h

raise_step_same :
    (step : Option ℕ) (j : Job)
    → ((raise_step step j).edge_info ≡ j.edge_info) × ((raise_step step j).name ≡ j.name)
raise_step_same none j = (refl, refl)
raise_step_same (some n) j = (refl, refl)

-- Adding a special condition on a status keeps the job list well formed.
pub add_special_conditions-IsWellFormed :
    (r : ℕ) (status : String) (step : Option ℕ) (parent : ℕ) (l : JobList)
    → status_of_key status ≢ none
    → IsWellFormed l
    → IsWellFormed (add_special_conditions r (some status) step parent l)
unfolding add_special_conditions
add_special_conditions-IsWellFormed r status step parent l e w = elim (Bool-cases (status == "")) [
  | inl t ↦ rw t w
  | inr f ↦ rw f (record {
    keys =
        modify_all (λ j. StatusKeys j.edge_info) r change (add_edges_map_info r status l) w.keys
          (λ h.
            add_edge_info-StatusKeys status (job l parent).name parent step
              (raise_step step (job l r)) e
              (subst StatusKeys (sym (raise_step_same step (job l r)).0) h));
    names =
        modify_all (λ j. status_of_key j.name ≡ none) r change (add_edges_map_info r status l)
          w.names (λ h. ap status_of_key (raise_step_same step (job l r)).1 ∙ h);
  })
]
  where
    change : Job → Job
    change j = add_edge_info status (job l parent).name parent step (raise_step step j)
