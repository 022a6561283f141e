-- ===== src/SubJobs/Drained.antt =====
-- How long the loop over the roots of `process_times` runs (autosubmit/job/job_utils.py).
use autosubmit.Prelude.{
  ℕ, zero, suc, ◌+◌, ◌≤◌, ◌≡◌, ◌-◌, refl, ap, ◌∙◌, ◌⊎◌, inl, inr, String, Bool, true, false, ◌||◌,
  some, List, [], ◌∷◌, ◌++◌, length, length-append_one, Map, get_key, set_key, get_key-set_key,
  ◌==◌, ==-eq, ==_self, string_eq, if◌then◌else◌, Result, ok, err, key_error, for_each, arith,
  Bool-cases, Option-cases,
}
use autosubmit.SubJobs.{SubJobManager, find_name}
use autosubmit.SubJobs.Walk.{Walk, has_new_queue, is_known, fix_child, walk_roots, retain}

-- The names of the package that have no new queue time.
unfixed : Map String ℕ → Map String ℕ → ℕ
unfixed [] queues = 0
unfixed ((k, c) ∷ local) queues =
    let rest = unfixed local queues in if has_new_queue k queues then rest else suc rest

has_new_queue-set_key :
    (j k : String) (v : ℕ) (d : Map String ℕ)
    → has_new_queue j (set_key k v d) ≡ (j == k) || has_new_queue j d
unfolding has_new_queue
has_new_queue-set_key j k v d = ap is_known (get_key-set_key j k v d) ∙ either (j == k)
  where
    either : (b : Bool) → is_known (if b then some v else get_key j d) ≡ b || is_known (get_key j d)
    either true = refl
    either false = refl

unfixed-le :
    (local d : Map String ℕ) (k : String) (v : ℕ) → unfixed local (set_key k v d) ≤ unfixed local d
unfolding unfixed
unfixed-le [] d k v = omega arith
unfixed-le ((j, c) ∷ local) d k v =
    ground (arith, has_new_queue-set_key j k v d, unfixed-le local d k v)

unfixed-lt :
    (local d : Map String ℕ) (k : String) (v c : ℕ)
    → get_key k local ≡ some c
    → has_new_queue k d ≡ false
    → suc (unfixed local (set_key k v d)) ≤ unfixed local d
unfolding unfixed get_key
unfixed-lt [] d k v c h new = absurd (cc)
unfixed-lt ((j, i) ∷ local) d k v c h new = elim (Bool-cases (k == j)) [
  | inl e ↦
      ground
        (arith, has_new_queue-set_key j k v d, unfixed-le local d k v, ==-eq k j e, ==_self j, new)
  | inr e ↦ ground (arith, has_new_queue-set_key j k v d, unfixed-lt local d k v c (rw e at h) new)
]

unfixed-length : (local d : Map String ℕ) → unfixed local d ≤ length local
unfolding unfixed
unfixed-length [] d = omega arith
unfixed-length ((j, c) ∷ local) d = ground (arith, unfixed-length local d)

find_name-cases :
    (k : String) (d : Map String ℕ)
    → (find_name k d ≡ err key_error) ⊎ ((c : ℕ) × (find_name k d ≡ ok c) × (get_key k d ≡ some c))
unfolding find_name
find_name-cases k d = elim (Option-cases (get_key k d)) [
  | inl e ↦ inl (rw (e, find_name) refl)
  | inr (c, e) ↦ inr (c, rw (e, find_name) refl, e)
]

module _ (m : SubJobManager) (local_index : Map String ℕ) where
  cost : Walk → ℕ
  cost w = length w.roots + unfixed local_index w.new_queues

  Costs : ℕ → Result Walk → Type 0
  Costs n x = (x ≡ err key_error) ⊎ ((w : Walk) × (x ≡ ok w) × (cost w ≤ n))

  fix_child-Costs :
      (r : ℕ) (child : String) (w : Walk) → Costs (cost w) (fix_child m local_index r child w)
  unfolding fix_child Costs cost
  fix_child-Costs r child w = elim (Bool-cases (has_new_queue child w.new_queues)) [
    | inl seen ↦ inr (w, rw seen refl, omega arith)
    | inr new ↦ elim (find_name-cases child local_index) [
      | inl e ↦ inl (rw (new, e) refl)
      | inr (c, e, at_c) ↦ elim (find_name-cases (m.at r).name m.subjobindex) [
        | inl e' ↦ inl (rw (new, e, e') refl)
        | inr (sub, e', _) ↦ elim (find_name-cases child m.subjobindex) [
          | inl e'' ↦ inl (rw (new, e, e', e'') refl)
          | inr (kept, e'', _) ↦
              let size = (m.at sub).queue + (m.at sub).run in
              let w' : Walk = record {
                roots = w.roots ++ (c ∷ []);
                new_queues = set_key child ((m.at kept).queue - size) w.new_queues;
                fixes_applied = retain m local_index child size w.fixes_applied;
              } in
              inr (
                w',
                rw (new, e, e', e'') refl,
                omega (
                  arith,
                  length-append_one w.roots c,
                  unfixed-lt local_index w.new_queues child ((m.at kept).queue - size) c at_c new,
                ),
              )
        ]
      ]
    ]
  ]

  children-Costs :
      (r n : ℕ) (children : List String) (w : Walk)
      → cost w ≤ n
      → Costs n (for_each (fix_child m local_index r) children w)
  unfolding Costs
  children-Costs r n [] w h = inr (w, refl, h)
  children-Costs r n (child ∷ children) w h = elim (fix_child-Costs r child w) [
    | inl e ↦ inl (rw e refl)
    | inr (w', e, small) ↦ rw e (children-Costs r n children w' (omega (arith, h, small)))
  ]

  -- `len(roots) > 0` ends the loop, or a name of a child is missing.
  pub Ends : Result Walk → Type 0
  Ends x = (x ≡ err key_error) ⊎ ((w : Walk) × (x ≡ ok w) × (w.roots ≡ []))

  no_roots : (rs : List ℕ) → length rs ≤ 0 → rs ≡ []
  no_roots [] h = refl
  no_roots (r ∷ rs) h = absurd (omega (arith, h))

  walk_roots-Ends_within :
      (fuel : ℕ) (w : Walk) → cost w ≤ fuel → Ends (walk_roots m local_index fuel w)
  unfolding walk_roots Ends Costs cost
  walk_roots-Ends_within zero w h = inr (w, refl, no_roots w.roots (omega (arith, h)))
  walk_roots-Ends_within (suc fuel) w h = go (walk_roots-Ends_within fuel) w.roots refl
    where
      go :
          ((v : Walk) → cost v ≤ fuel → Ends (walk_roots m local_index fuel v))
          → (rs : List ℕ) → w.roots ≡ rs
          → Ends (walk_roots m local_index (suc fuel) w)
      go ih [] e = inr (w, rw e refl, e)
      go ih (r ∷ rest) e =
          elim (children-Costs r fuel (m.at r).children (record w { roots = rest })
            (omega (arith, h, ap length e))) [
              | inl e' ↦ inl (rw (e, e') refl)
              | inr (w', e', small) ↦ rw (e, e') (ih w' small)
            ]

  -- Started with fuel for the roots and for the names of the package, the loop over the roots
  -- either ends with no root left or with a KeyError, whatever queue times are known already.
  pub walk_roots-Ends :
      (roots : List ℕ) (queues fixes : Map String ℕ)
      → Ends (
          walk_roots m local_index
            (length roots + length local_index)
            (record { roots = roots; new_queues = queues; fixes_applied = fixes }))
  unfolding cost
  walk_roots-Ends roots queues fixes =
      walk_roots-Ends_within (length roots + length local_index)
        (record { roots = roots; new_queues = queues; fixes_applied = fixes })
        (omega (arith, unfixed-length local_index queues))
