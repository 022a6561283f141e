-- ===== src/Job/Ancestors.antt =====
-- `is_parent` and `is_ancestor` of class `Job` (autosubmit/job/job.py).
use autosubmit.Prelude.{ℕ, zero, suc, Bool, false, ◌||◌, nat_eq, contains, any}
use autosubmit.Job.Record.{Job, Store}
pub mod Paths

-- `self.is_parent(job)`
unfoldable pub is_parent : Store → ℕ → ℕ → Bool
unfolding nat_eq
is_parent s r a = contains (s r).parents a

-- The recursion goes up the parents; fuel bounds its depth.
unfoldable pub is_ancestor : ℕ → Store → ℕ → ℕ → Bool
unfolding is_parent
is_ancestor zero s r a = false
is_ancestor (suc fuel) s r a = any (λ p. is_parent s p a || is_ancestor fuel s p a) (s r).parents
