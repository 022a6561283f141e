-- ===== src/JobList/Update/Waiting/Parents.antt =====
-- Which WAITING jobs the phase makes READY, where no edge is optional.
use mathlib.Core.Path.{fun_ext}
use autosubmit.Prelude.{
  ℕ, ◌≡◌, refl, sym, ap, ◌∙◌, subst, ◌⊎◌, inl, inr, Bool, true, false, List, [], ◌∷◌, ◌==◌, ==-eq,
  nat_eq, filter, length, All, In, Bool-cases, if◌then◌else◌, All-In, All-map, filter-All,
  In-filter_of, ◌&&◌, arith,
}
use autosubmit.Job.Status.{status_eq, waiting, ready, failed, Status-discrete}
use autosubmit.Job.Record.{Job}
use autosubmit.JobList.State.{JobList, job, status_of, modify_self, modify}
use autosubmit.JobList.Update.Waiting.{
  readied, is_done, parents_with, is_optional, scan_failed, make_ready, single_parent, weak_parents,
  visit_waiting, visit_each, update_waiting,
}

-- No parent of any job is optional.
abbrev pub NeverOptional : JobList → Type 0
NeverOptional l = (r p : ℕ) → is_optional l (job l r) p ≡ false

scan_failed_weak :
    (l : JobList) (r : ℕ)
    → NeverOptional l
    → (ps : List ℕ) → (scan_failed l (job l r) ps false).1 ≡ false
unfolding scan_failed
scan_failed_weak l r h [] = refl
scan_failed_weak l r h (p ∷ ps) = ground (arith, h r p, scan_failed_weak l r h ps)

single_parent_lem :
    (l : JobList) (r : ℕ) → NeverOptional l → (ps : List ℕ) → single_parent r ps l ≡ l
unfolding single_parent
single_parent_lem l r h [] = refl
single_parent_lem l r h (p ∷ ps) = ground (arith, h r p, single_parent_lem l r h ps)

weak_parents_lem : (l : JobList) (r : ℕ) → NeverOptional l → weak_parents r l ≡ (l, false)
unfolding weak_parents
weak_parents_lem l r h = ground (
  arith,
  scan_failed_weak l r h (parents_with (λ s. s == failed) l (job l r)),
  single_parent_lem l r h (job l r).parents,
)

-- Have all parents of the job run to their end or been skipped.
abbrev pub every_done : JobList → ℕ → Bool
every_done l r = length (parents_with is_done l (job l r)) == length (job l r).parents

status-make_ready : (r : ℕ) (l : JobList) → status_of (make_ready r l) r ≡ ready
unfolding make_ready
status-make_ready r l = ap (λ (j : Job). j.status) (modify_self r readied l)

visit_waiting_lem :
    (l : JobList) (r : ℕ)
    → NeverOptional l
    → visit_waiting r l ≡ (if every_done l r then make_ready r l else l, false)
unfolding visit_waiting
visit_waiting_lem l r h = ground (arith, weak_parents_lem l r h, status-make_ready r l)

-- Between the start and the end of the loop: `l` is `l0` with some jobs made READY.
record Between (l0 l : JobList) : Type 0 where
  store_of :
      (q : ℕ)
      → (l.store q ≡ l0.store q)
        ⊎ ((status_of l0 q ≡ waiting)
            × (every_done l0 q ≡ true)
            × (l.store q ≡ readied (l0.store q)))

module _ {l0 l : JobList} (b : Between l0 l) where
  parents_same : (q : ℕ) → (job l q).parents ≡ (job l0 q).parents
  parents_same q = elim (b.store_of q) [
    | inl e ↦ ap (λ (j : Job). j.parents) e
    | inr (w, d, e) ↦ ap (λ (j : Job). j.parents) e
  ]

  edge_info_same : (q : ℕ) → (job l q).edge_info ≡ (job l0 q).edge_info
  edge_info_same q = elim (b.store_of q) [
    | inl e ↦ ap (λ (j : Job). j.edge_info) e
    | inr (w, d, e) ↦ ap (λ (j : Job). j.edge_info) e
  ]

  name_same : (q : ℕ) → (job l q).name ≡ (job l0 q).name
  name_same q = elim (b.store_of q) [
    | inl e ↦ ap (λ (j : Job). j.name) e
    | inr (w, d, e) ↦ ap (λ (j : Job). j.name) e
  ]

  done_same : (q : ℕ) → is_done (status_of l q) ≡ is_done (status_of l0 q)
  unfolding status_eq Status-discrete
  done_same q = elim (b.store_of q) [
    | inl e ↦ ap (λ (j : Job). is_done j.status) e
    | inr (w, d, e) ↦ rw (ap (λ (j : Job). j.status) e, w)
  ]

  all_done_same : (q : ℕ) → every_done l q ≡ every_done l0 q
  all_done_same q = rw (parents_same q, fun_ext done_same)

  optional_same : NeverOptional l0 → NeverOptional l
  unfolding is_optional
  optional_same h r p = rw (edge_info_same r, name_same p) (h r p)

-- The body of the loop, where no edge is optional.
abbrev promote : JobList → ℕ → JobList
promote l r = if every_done l r then make_ready r l else l

-- The job at which the loop stands keeps nothing but its promotion.
promote_store :
    {l0 l : JobList}
    → Between l0 l
    → (r q : ℕ) → status_of l0 r ≡ waiting
    → ((promote l r).store q ≡ l.store q)
      ⊎ ((q ≡ r) × (every_done l0 r ≡ true) × ((promote l r).store q ≡ readied (l0.store r)))
unfolding make_ready modify
promote_store {l0} {l} b r q w = ground (arith, all_done_same b r, b.store_of r)

promote-Between :
    {l0 l : JobList} → Between l0 l → (r : ℕ) → status_of l0 r ≡ waiting → Between l0 (promote l r)
promote-Between b r w = record {
  store_of = λ q. elim (promote_store b r q w) [
    | inl e ↦ ground (arith, b.store_of q)
    | inr (same, d, e) ↦ ground arith
  ];
}

-- A job whose parents are all done is READY in `l`.
abbrev IsPromoted : JobList → JobList → ℕ → Type 0
IsPromoted l0 l q = every_done l0 q ≡ true → l.store q ≡ readied (l0.store q)

promote_self : {l0 l : JobList} → Between l0 l → (r : ℕ) → IsPromoted l0 (promote l r) r
unfolding make_ready modify
promote_self {l0} {l} b r d = ground (arith, all_done_same b r, b.store_of r)

promote_keeps :
    {l0 l : JobList}
    → Between l0 l
    → (r q : ℕ) → status_of l0 r ≡ waiting
    → IsPromoted l0 l q
    → IsPromoted l0 (promote l r) q
promote_keeps b r q w h d = elim (promote_store b r q w) [
  | inl e ↦ e ∙ h d
  | inr (same, d', e) ↦ ground arith
]

abbrev After : JobList → List ℕ → JobList → JobList → Type 0
After l0 rs l l' =
    Between l0 l' × ((q : ℕ) → IsPromoted l0 l q → IsPromoted l0 l' q) × All (IsPromoted l0 l') rs

visit_each_step :
    (l : JobList)
    → NeverOptional l
    → (r : ℕ) (rs : List ℕ) → visit_each (r ∷ rs) l ≡ visit_each rs (promote l r)
unfolding visit_each
visit_each_step l h r rs = rw (visit_waiting_lem l r h)

visit_each_lem :
    (l0 : JobList)
    → NeverOptional l0
    → (rs : List ℕ) → All (λ r. status_of l0 r ≡ waiting) rs
    → (l : JobList) → Between l0 l
    → After l0 rs l (visit_each rs l)
visit_each_lem l0 h [] ws l b = unfold visit_each in (b, λ q k. k, tt)
visit_each_lem l0 h (r ∷ rs) ws l b =
    let b1 = promote-Between b r ws.0 in
    let out = visit_each_lem l0 h rs ws.1 (promote l r) b1 in
    subst (After l0 (r ∷ rs) l) (sym (visit_each_step l (optional_same b h) r rs))
      (out.0, λ q k. out.1 q (promote_keeps b r q ws.0 k), (out.1 r (promote_self b r), out.2))

-- The jobs that the loop visits.
abbrev visited : JobList → List ℕ
visited l = filter (λ r. status_of l r == waiting) l.order

update_waiting-After : (l : JobList) → NeverOptional l → After l (visited l) l (update_waiting l)
unfolding update_waiting
update_waiting-After l h =
    visit_each_lem l h (visited l)
      (All-map (λ r. ==-eq (status_of l r) waiting) (visited l)
        (filter-All (λ r. status_of l r == waiting) l.order))
      l (record { store_of = λ r. inl refl })

pub update_waiting-NeverOptional :
    (l : JobList) → NeverOptional l → NeverOptional (update_waiting l)
update_waiting-NeverOptional l h = optional_same (update_waiting-After l h).0 h

-- Every waiting job ends as its parents say; no other job changes.
abbrev pub next_of : JobList → ℕ → Job
next_of l q =
    if (status_of l q == waiting) && every_done l q then readied (l.store q) else l.store q

pub update_waiting_lem :
    (l : JobList)
    → NeverOptional l
    → (q : ℕ) → In q l.order
    → (update_waiting l).store q ≡ next_of l q
unfolding status_eq
update_waiting_lem l h q m = elim ((update_waiting-After l h).0.store_of q) [
  | inr (w, d, e) ↦ ground arith
  | inl e ↦ elim (Bool-cases (status_of l q == waiting)) [
    | inr other ↦ ground arith
    | inl w ↦ ground (
      arith,
      All-In (IsPromoted l (update_waiting l)) q (visited l) (update_waiting-After l h).2
          (In-filter_of (λ r. status_of l r == waiting) q l.order m w),
    )
  ]
]
