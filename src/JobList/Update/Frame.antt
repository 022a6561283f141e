-- ===== src/JobList/Update/Frame.antt =====
-- What a phase of `update_list` leaves alone: the list, the fields that say which job is which, and
-- the status of each job that is not one of those that the phase is about.
use autosubmit.Prelude.{
  ℕ, ◌≡◌, refl, sym, ap, ◌∙◌, subst, ◌⊎◌, inl, inr, Bool, true, List, [], ◌∷◌, All, Result, ok,
  for_each, run_each, >>=-eq-ok,
}
use autosubmit.Job.Status.{Status}
use autosubmit.Job.Record.{Job}
use autosubmit.JobList.State.{JobList, job, status_of, modify, modify_cases}

-- Statuses, as the sources and the targets of a phase.
abbrev pub Statuses : Type 0
Statuses = Status → Bool

pub record Kept (src tgt : Statuses) (j j' : Job) : Type 0 where
  pub name_same : j'.name ≡ j.name
  pub section_same : j'.section ≡ j.section
  pub parents_same : j'.parents ≡ j.parents
  pub status_moved : (j'.status ≡ j.status) ⊎ ((src j.status ≡ true) × (tgt j'.status ≡ true))

pub record Frame (src tgt : Statuses) (l l' : JobList) : Type 0 where
  pub order_same : l'.order ≡ l.order
  pub jobs : (q : ℕ) → Kept src tgt (job l q) (job l' q)

pub Frame-refl : (src tgt : Statuses) (l : JobList) → Frame src tgt l l
Frame-refl src tgt l = record {
  order_same = refl;
  jobs = λ q. record {
    name_same = refl;
    section_same = refl;
    parents_same = refl;
    status_moved = inl refl;
  };
}

-- A change of a job that is about the job's record alone.
pub record Changes (tgt : Statuses) (f : Job → Job) (j : Job) : Type 0 where
  pub name_same : (f j).name ≡ j.name
  pub section_same : (f j).section ≡ j.section
  pub parents_same : (f j).parents ≡ j.parents
  pub status_moved : ((f j).status ≡ j.status) ⊎ (tgt (f j).status ≡ true)

Kept-trans :
    (src tgt : Statuses) (j j' j'' : Job) → Kept src tgt j j' → j'' ≡ j' → Kept src tgt j j''
Kept-trans src tgt j j' j'' k e = subst (Kept src tgt j) (sym e) k

Kept-Changes :
    (src tgt : Statuses) (f : Job → Job) (j j' : Job)
    → Kept src tgt j j'
    → (src j.status ≡ true) ⊎ ((f j').status ≡ j'.status)
    → Changes tgt f j'
    → Kept src tgt j (f j')
Kept-Changes src tgt f j j' k s c = record {
  name_same = c.name_same ∙ k.name_same;
  section_same = c.section_same ∙ k.section_same;
  parents_same = c.parents_same ∙ k.parents_same;
  status_moved = status s c.status_moved k.status_moved;
}
  where
    status :
        (src j.status ≡ true) ⊎ ((f j').status ≡ j'.status)
        → ((f j').status ≡ j'.status) ⊎ (tgt (f j').status ≡ true)
        → (j'.status ≡ j.status) ⊎ ((src j.status ≡ true) × (tgt j'.status ≡ true))
        → ((f j').status ≡ j.status) ⊎ ((src j.status ≡ true) × (tgt (f j').status ≡ true))
    status (inr e) c (inl k) = inl (e ∙ k)
    status (inr e) c (inr k) = inr (k.0, ap tgt e ∙ k.1)
    status (inl s) (inl e) (inl k) = inl (e ∙ k)
    status (inl s) (inl e) (inr k) = inr (s, ap tgt e ∙ k.1)
    status (inl s) (inr t) k = inr (s, t)

-- A phase that has come from `l0` to `l` may change the job `r`, if that is one of its sources.
pub modify-Frame :
    (src tgt : Statuses) (l0 l : JobList) (r : ℕ) (f : Job → Job)
    → Frame src tgt l0 l
    → (src (status_of l0 r) ≡ true) ⊎ ((f (job l r)).status ≡ status_of l r)
    → Changes tgt f (job l r)
    → Frame src tgt l0 (modify r f l)
modify-Frame src tgt l0 l r f h s c = record {
  order_same = unfold modify in h.order_same;
  jobs = λ q. elim (modify_cases r q f l) [
    | inr (differ, e) ↦ Kept-trans src tgt _ _ _ (h.jobs q) e
    | inl (same, e) ↦
        Kept-trans src tgt _ _ _
          (subst (λ x. Kept src tgt (job l0 x) (f (job l x))) (sym same)
            (Kept-Changes src tgt f (job l0 r) (job l r) (h.jobs r) s c))
          e
  ];
}

-- A loop that may raise keeps what each of its steps keeps.
pub for_each-keeps {ℓ} :
    {A S : Type 0} (P : S → Type ℓ) (Q : A → Type 0) (body : A → S → Result S)
    → ((a : A) → Q a → (s s' : S) → P s → body a s ≡ ok s' → P s')
    → (as' : List A) → All Q as'
    → (s s' : S) → P s
    → for_each body as' s ≡ ok s'
    → P s'
for_each-keeps P Q body step [] qs s s' h e = subst P (let p : s ≡ s' = cc in p) h
for_each-keeps P Q body step (a ∷ as') qs s s' h e =
    let (m, e1, e2) = >>=-eq-ok (body a s) (for_each body as') e in
    for_each-keeps P Q body step as' qs.1 m s' (step a qs.0 s m h e1) e2

pub run_each-keeps {ℓ} :
    {A S : Type 0} (P : S → Type ℓ) (Q : A → Type 0) (body : A → S → S)
    → ((a : A) → Q a → (s : S) → P s → P (body a s))
    → (as' : List A) → All Q as'
    → (s : S) → P s
    → P (run_each body as' s)
run_each-keeps P Q body step [] qs s h = h
run_each-keeps P Q body step (a ∷ as') qs s h =
    run_each-keeps P Q body step as' qs.1 (body a s) (step a qs.0 s h)

pub All-tt : {A : Type 0} (xs : List A) → All (λ _. Unit {0}) xs
All-tt [] = tt
All-tt (x ∷ xs) = (tt, All-tt xs)
