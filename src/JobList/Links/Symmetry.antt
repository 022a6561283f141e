-- ===== src/JobList/Links/Symmetry.antt =====
-- A job is among the children of each of its parents, and among the parents of each of its children.
use autosubmit.Prelude.{
  ℕ, ◌≡◌, sym, ap, ◌∙◌, not, ◌&&◌, ◌||◌, List, [], ◌∷◌, ◌++◌, ◌==◌, contains, nat_eq, string_eq,
  filter, run_each, Bool-cases, inl, inr, arith,
}
use autosubmit.JobList.State.{JobList, job, modify}
use autosubmit.JobList.Edges.{add_once}
use autosubmit.JobList.Links.{
  Argument, references, add_child, add_to_parents, link_parent, add_parent, link_child,
  add_children,
}

abbrev pub IsSymmetric : JobList → Type 0
IsSymmetric l = (c p : ℕ) → contains (job l c).parents p ≡ contains (job l p).children c

contains-append : (xs : List ℕ) (r q : ℕ) → contains (xs ++ (r ∷ [])) q ≡ (contains xs q || q == r)
contains-append [] r q = ground arith
contains-append (x ∷ xs) r q = ground (arith, contains-append xs r q)

contains-add_once :
    (r : ℕ) (xs : List ℕ) (q : ℕ) → contains (add_once r xs) q ≡ (contains xs q || q == r)
contains-add_once r xs q = elim (Bool-cases (contains xs r)) [
  | inl e ↦ ground (arith, e)
  | inr e ↦ ground (arith, e, contains-append xs r q)
]

after-add_to_parents :
    (c p : ℕ) (l : JobList) (x y : ℕ)
    → (contains (job (add_to_parents c p l) x).parents y
        ≡ (contains (job l x).parents y || (x == c && y == p)))
      × (contains (job (add_to_parents c p l) y).children x ≡ contains (job l y).children x)
unfolding add_to_parents modify
after-add_to_parents c p l x y =
    (ground (arith, contains-add_once p (job l x).parents y), ground arith)

after-add_child :
    (c p : ℕ) (l : JobList) (x y : ℕ)
    → (contains (job (add_child p c l) y).children x
        ≡ (contains (job l y).children x || (x == c && y == p)))
      × (contains (job (add_child p c l) x).parents y ≡ contains (job l x).parents y)
unfolding add_child modify
after-add_child c p l x y = (ground (arith, contains-add_once c (job l y).children x), ground arith)

link_parent-IsSymmetric : (c p : ℕ) (l : JobList) → IsSymmetric l → IsSymmetric (link_parent c p l)
unfolding link_parent
link_parent-IsSymmetric c p l s x y =
    let (a, b) = after-add_to_parents c p l x y in
    let (d, e) = after-add_child c p (add_to_parents c p l) x y in
    e ∙ (a ∙ (ap (λ v. v || (x == c && y == p)) (s x y ∙ sym b) ∙ sym d))

link_child-IsSymmetric : (p c : ℕ) (l : JobList) → IsSymmetric l → IsSymmetric (link_child p c l)
unfolding link_child
link_child-IsSymmetric p c l s x y =
    let (d, e) = after-add_child c p l x y in
    let (a, b) = after-add_to_parents c p (add_child p c l) x y in
    a ∙ (ap (λ v. v || (x == c && y == p)) (e ∙ s x y) ∙ (sym d ∙ sym b))

all-IsSymmetric :
    {A : Type 0} (body : A → JobList → JobList)
    → ((a : A) (l : JobList) → IsSymmetric l → IsSymmetric (body a l))
    → (xs : List A) (l : JobList) → IsSymmetric l
    → IsSymmetric (run_each body xs l)
all-IsSymmetric body keep [] l s = s
all-IsSymmetric body keep (x ∷ xs) l s = all-IsSymmetric body keep xs (body x l) (keep x l s)

-- Adding parents to a job, and adding children, keeps the edges symmetric: a job has a parent
-- exactly if the parent has the job among its children.
pub add_parent-add_children-IsSymmetric :
    (r : ℕ) (args : List Argument) (children : List ℕ) (l : JobList)
    → IsSymmetric l
    → IsSymmetric (add_parent r args l) × IsSymmetric (add_children r children l)
unfolding add_parent add_children
add_parent-add_children-IsSymmetric r args children l s = (
  all-IsSymmetric (λ a. run_each (link_parent r) (references a))
      (λ a. all-IsSymmetric (link_parent r) (link_parent-IsSymmetric r) (references a)) args l s,
  all-IsSymmetric (link_child r) (link_child-IsSymmetric r)
      (filter (λ c. not ((job l c).name == (job l r).name)) children) l s,
)
