-- ===== src/JobList/Distance/Moves.antt =====
-- How far a dependency with a distance moves.
use autosubmit.Prelude.{
  ℕ, zero, suc, ◌+◌, ◌-◌, ◌≤◌, ◌<◌, min, ◌≡◌, refl, ap, subst, String, true, false, Option, none,
  some, List, [], ◌∷◌, length, ◌==◌, ==-eq, Eq, nat_eq, string_eq, list_eq, contains, ltb, leb,
  Bool-cases, inl, inr, Result, ok, ◌>>=◌, >>=-eq-ok, arith,
}
use autosubmit.Prelude.Int.{Text}
use autosubmit.JobList.Distance.{
  Sign, minus, plus, Dependency, Lists, get_elem, get_before, next_possible, index_of, same_place,
  has_text, chunk_plus, member_minus, member_plus, date_minus, date_plus, move_date, move_member,
  calculate_dependency_metadata,
}

abbrev pub moving : Sign → ℕ → String → Dependency
moving sign k running = record { sign = sign; distance = k; running = running }

module _ {A : Type 0} where
  get_elem_lem : (xs : List A) (n : ℕ) → n < length xs → (x : A) × (get_elem xs n ≡ ok x)
  unfolding get_elem
  get_elem_lem [] n h = absurd (omega arith)
  get_elem_lem (x ∷ xs) zero h = (x, refl)
  get_elem_lem (x ∷ xs) (suc n) h = get_elem_lem xs n (omega arith)

  next_possible_lem :
      (xs : List A) (n k : ℕ) (x : A)
      → n < length xs
      → length xs ≤ n + k
      → next_possible xs n k x ≡ get_elem xs (length xs - 1)
  unfolding next_possible
  next_possible_lem xs n zero x h far = absurd (omega arith)
  next_possible_lem xs n (suc k) x h far = elim (Bool-cases (ltb (n + k) (length xs))) [
    | inl t ↦ rw (t, next_possible) (ap (get_elem xs) (ground arith))
    | inr f ↦ rw (f, next_possible) (next_possible_lem xs n k x h (ground arith))
  ]

ok_eq : {a b : ℕ} → ◌≡◌ {A = Result ℕ} (ok a) (ok b) → a ≡ b
ok_eq h = cc

index_of_lem :
    {A : Type 0} ⦃e : Eq A⦄ (xs : List A) (x : A) (n : ℕ)
    → index_of xs x ≡ ok n
    → (n < length xs) × (get_elem xs n ≡ ok x)
unfolding index_of get_elem
index_of_lem [] x n h = absurd (cc)
index_of_lem (y ∷ ys) x n h = elim (Bool-cases (y == x)) [
  | inl t ↦
      let zero_is : ◌≡◌ {A = ℕ} 0 n = ok_eq (rw (t, index_of) at h) in
      subst (λ i. (i < length (y ∷ ys)) × (get_elem (y ∷ ys) i ≡ ok x)) zero_is
        (omega arith, ap ok (==-eq y x t))
  | inr f ↦
      let (a, e, last) = >>=-eq-ok (index_of ys x) (λ i. ok (i + 1)) (rw (f, index_of) at h) in
      let (within, found) = index_of_lem ys x a e in
      let next : suc a ≡ n = omega (arith, ok_eq last) in
      subst (λ i. (i < length (y ∷ ys)) × (get_elem (y ∷ ys) i ≡ ok x)) next (omega arith, found)
]

module _ (l : Lists) where
  -- A dependency on a later chunk means the chunk that is so far behind in the list, or the last one
  -- where the list ends before; it is not skipped. The member and the date are kept.
  pub calculate_dependency_metadata-chunk_plus :
      (c n k : ℕ) (m : Option Text) (d : Option ℕ)
      → index_of l.chunk_list c ≡ ok n
      → calculate_dependency_metadata l (moving plus k "chunk") (some c) m d ≡ (
          get_elem l.chunk_list (min (n + k) (length l.chunk_list - 1)) >>= λ found.
          ok (same_place (some found) m d false))
  unfolding calculate_dependency_metadata chunk_plus string_eq
  calculate_dependency_metadata-chunk_plus c n k m d h =
      let (within, found) = index_of_lem l.chunk_list c n h in
      elim (Bool-cases (ltb (n + k) (length l.chunk_list))) [
        | inl t ↦
            let e : min (n + k) (length l.chunk_list - 1) ≡ n + k = ground arith in
            rw (h, t, e, chunk_plus) refl
        | inr f ↦
            let e : min (n + k) (length l.chunk_list - 1) ≡ length l.chunk_list - 1 =
              ground arith in
            let far : length l.chunk_list ≤ n + k = ground arith in
            rw (h, f, e, next_possible_lem l.chunk_list n k c within far, chunk_plus) refl
      ]

  -- On members that differ and are not empty, a dependency on the member `k` places later and then
  -- one on the member `k` places earlier come back, where the list is long enough.
  member_minus-member_plus :
      (n k : ℕ) (m : Text) (c d : Option ℕ) (running : String)
      → ((i : ℕ) (x : Text)
          → get_elem l.member_list i ≡ ok x
          → (index_of l.member_list x ≡ ok i) × (has_text (some x) ≡ true))
      → contains ("chunk" ∷ "member" ∷ []) running ≡ true
      → index_of l.member_list m ≡ ok n
      → n + k < length l.member_list
      → (x : Text) × (move_member l (moving plus k running) c (some m) d
          ≡ ok (same_place c (some x) d false))
        × (move_member l (moving minus k running) c (some x) d ≡ ok (same_place c (some m) d false))
  unfolding move_member
  member_minus-member_plus n k m c d running distinct runs h room =
      let (within, found) = index_of_lem l.member_list m n h in
      let (x, e) = get_elem_lem l.member_list (n + k) room in
      let (at_x, x_named) = distinct (n + k) x e in
      let (at_m, m_named) = distinct n m found in
      let near : ltb (n + k) (length l.member_list) ≡ true = ground arith in
      let back : leb k (n + k) ≡ true = ground arith in
      let same : n + k - k ≡ n = omega arith in
      (
        x,
        rw (m_named, runs, h, near, e, member_plus) refl,
        rw (x_named, runs, at_x, back, same, found, member_minus) refl,
      )

  -- On dates the two signs mean the same: a dependency on a later date is one on an earlier date,
  -- wherever the date has that many dates before it and after it.
  pub date_plus-date_minus :
      (n k d : ℕ) (running : String)
      → index_of l.date_list d ≡ ok n
      → k ≤ n
      → n + k < length l.date_list
      → calculate_dependency_metadata l (moving plus k running) none none (some d)
        ≡ calculate_dependency_metadata l (moving minus k running) none none (some d)
  unfolding calculate_dependency_metadata move_member move_date
  date_plus-date_minus n k d running h before room =
      let near : ltb (n + k) (length l.date_list) ≡ true = ground arith in
      let back : leb k n ≡ true = ground arith in
      let e : date_plus l (moving plus k running) none none d
          ≡ date_minus l (moving minus k running) none none d =
        rw (h, near, back, date_plus, date_minus, get_before) refl in
      rw e refl
