-- ===== src/SubJobs/Structured.antt =====
-- The branch of `process_times` with a structure (autosubmit/job/job_utils.py): its effect on the times.
use autosubmit.Prelude.{
  ℕ, zero, suc, ◌+◌, ◌-◌, ◌≤◌, ◌≡◌, refl, sym, ap, ◌∙◌, subst, inl, inr, String, List, [], ◌∷◌,
  ◌++◌, All, filter, contains, Map, get_key, nat_eq, string_eq, length, ok, ok_same, >>=-eq-ok,
  for_each, arith, Bool-cases,
}
use autosubmit.JobList.Update.Frame.{for_each-keeps}
use autosubmit.SubJobs.{SubJob, SubJobManager, change_subjob, find_name, index_names}
use autosubmit.SubJobs.Walk.{
  Walk, Times, has_new_queue, or_no_names, no_names, jobs_in, note_parent, join_children, fix_child,
  walk_roots, process_package,
}
use autosubmit.SubJobs.Order.{write_queue, with_structure}
use autosubmit.SubJobs.Lowered.{
  Lowered, unchanged_times, same_times, for_each-Holds, Entry, All-Entry-set_key,
  write_queue-Lowered, write_fixes-Lowered,
}

module _ (m0 : SubJobManager) where
  note_parent-Lowered :
      (local : Map String ℕ) (name child : String) (m m' : SubJobManager)
      → Lowered m0 m
      → note_parent local name child m ≡ ok m'
      → Lowered m0 m'
  unfolding note_parent
  note_parent-Lowered local name child m m' low h =
      let append = λ (s : SubJob). record s { parents = s.parents ++ (name ∷ []) } in
      let (c, _, same) = >>=-eq-ok (find_name child local) (λ c. ok (change_subjob c append m)) h in
      subst (Lowered m0) (ok_same same)
        (same_times m0 c append m (λ s. unchanged_times refl refl refl refl) low)

  join_children-Lowered :
      (local : Map String ℕ) (members : List String) (r : ℕ) (m m' : SubJobManager)
      → Lowered m0 m
      → join_children local members r m ≡ ok m'
      → Lowered m0 m'
  unfolding join_children
  join_children-Lowered local members r m m' low h =
      for_each-Holds (Lowered m0) (note_parent local (m.at r).name)
        (note_parent-Lowered local (m.at r).name) _ _ m'
        (same_times m0 r
          (λ s. record s {
            children =
                filter (contains members) (or_no_names (get_key (m.at r).name m.current_structure));
          })
          m (λ s. unchanged_times refl refl refl refl) low)
        h

  fix_child-Entry :
      (m : SubJobManager) (local : Map String ℕ) (r : ℕ) (child : String) (w w' : Walk)
      → Lowered m0 m
      → All (Entry m0) w.new_queues
      → fix_child m local r child w ≡ ok w'
      → All (Entry m0) w'.new_queues
  unfolding fix_child Entry
  fix_child-Entry m local r child w w' low known h =
      elim (Bool-cases (has_new_queue child w.new_queues)) [
        | inl seen ↦ subst (λ x. All (Entry m0) x.new_queues) (ok_same (rw seen at h)) known
        | inr new ↦
            let (c, _, h1) = >>=-eq-ok (find_name child local) _ (rw new at h) in
            let (sub, _, h2) = >>=-eq-ok (find_name (m.at r).name m.subjobindex) _ h1 in
            let (kept, found, h3) = >>=-eq-ok (find_name child m.subjobindex) _ h2 in
            subst (λ x. All (Entry m0) x.new_queues) (ok_same h3)
              (All-Entry-set_key m0 child ((m.at kept).queue - ((m.at sub).queue + (m.at sub).run))
                w.new_queues
                (λ r' found'.
                  let same : kept ≡ r' =
                    ok_same (sym found ∙ ap (find_name child) low.index_same ∙ found') in
                  subst
                    (λ x. (m.at kept).queue - ((m.at sub).queue + (m.at sub).run) ≤ (m0.at x).queue)
                    same (omega (arith, (low.jobs_slower kept).queue_le)))
                known)
      ]

  walk_roots-Entry :
      (m : SubJobManager) (local : Map String ℕ) (fuel : ℕ) (w w' : Walk)
      → Lowered m0 m
      → All (Entry m0) w.new_queues
      → walk_roots m local fuel w ≡ ok w'
      → All (Entry m0) w'.new_queues
  unfolding walk_roots
  walk_roots-Entry m local zero w w' low known h =
      subst (λ x. All (Entry m0) x.new_queues) (ok_same h) known
  walk_roots-Entry m local (suc fuel) w w' low known h =
      go (walk_roots-Entry m local fuel) w.roots refl
    where
      go :
          ((v v' : Walk)
            → Lowered m0 m
            → All (Entry m0) v.new_queues
            → walk_roots m local fuel v ≡ ok v'
            → All (Entry m0) v'.new_queues)
          → (rs : List ℕ) → w.roots ≡ rs
          → All (Entry m0) w'.new_queues
      go ih [] e = subst (λ x. All (Entry m0) x.new_queues) (ok_same (rw e at h)) known
      go ih (r ∷ rest) e =
          let (v, walked, rest_walked) =
            >>=-eq-ok (for_each (fix_child m local r) (m.at r).children (record w { roots = rest }))
              (walk_roots m local fuel) (rw e at h) in
          ih v w' low (children_known v walked) rest_walked
        where
          children_known :
              (v : Walk)
              → for_each (fix_child m local r) (m.at r).children (record w { roots = rest }) ≡ ok v
              → All (Entry m0) v.new_queues
          children_known v walked =
              for_each-Holds (λ x. All (Entry m0) x.new_queues) (fix_child m local r)
                (λ child x y. fix_child-Entry m local r child x y low) (m.at r).children
                (record w { roots = rest }) v known walked

  process_package-Lowered :
      (e : String × List String) (t t' : Times)
      → Lowered m0 t.0 × All (Entry m0) t.1
      → process_package e t ≡ ok t'
      → Lowered m0 t'.0 × All (Entry m0) t'.1
  unfolding process_package
  process_package-Lowered (of_package, members) (m, queues, fixes) t' (low, known) h =
      let jobs = jobs_in m of_package in
      let local = index_names m jobs in
      let (m', joined, h1) = >>=-eq-ok (for_each (join_children local members) jobs m) _ h in
      let low' =
        for_each-Holds (Lowered m0) (join_children local members)
          (join_children-Lowered local members) jobs m m' low joined in
      let (w, walked, h2) =
        >>=-eq-ok
          (walk_roots m' local
            (length (filter (λ r. no_names (m'.at r).parents) jobs) + length local)
            (record {
              roots = filter (λ r. no_names (m'.at r).parents) jobs;
              new_queues = queues;
              fixes_applied = fixes;
            }))
          _ h1 in
      subst (λ x. Lowered m0 x.0 × All (Entry m0) x.1) (ok_same h2)
        (low', walk_roots-Entry m' local _ _ w low' known walked)

  pub with_structure-Lowered :
      (m m' : SubJobManager) → Lowered m0 m → with_structure m ≡ ok m' → Lowered m0 m'
  unfolding with_structure
  with_structure-Lowered m m' low h =
      let ((n, queues, fixes), visited, h1) =
        >>=-eq-ok (for_each process_package m.package_to_jobs (m, [], [])) _ h in
      let (low', known) =
        for_each-Holds (λ (t : Times). Lowered m0 t.0 × All (Entry m0) t.1) process_package
          process_package-Lowered m.package_to_jobs (m, [], []) (n, queues, fixes) (low, tt)
          visited in
      let (n', written, h2) = >>=-eq-ok (for_each write_queue queues n) _ h1 in
      subst (Lowered m0) (ok_same h2) (
        write_fixes-Lowered m0 fixes n' (
          for_each-keeps (Lowered m0) (Entry m0) write_queue
            (λ e new x y. write_queue-Lowered m0 e x y new) queues known n n' low' written))
