-- ===== src/JobList/Distance.antt =====
-- `_calculate_dependency_metadata` of class `JobList` (autosubmit/job/job_list.py): the chunk, the
-- member and the date that a dependency with a distance means.
use autosubmit.Prelude.{
  ℕ, zero, suc, ◌+◌, ◌-◌, String, Bool, true, false, ◌||◌, ◌&&◌, Option, none, some, List, [], ◌∷◌,
  length, ◌==◌, Eq, nat_eq, string_eq, list_eq, contains, ltb, leb, if◌then◌else◌, Result, ok, err,
  value_error, index_error, ◌>>=◌,
}
use autosubmit.Prelude.Int.{Text}
pub mod Moves

pub data Sign : Type 0 where
  minus plus other_sign : Sign

pub record Dependency : Type 0 where
  pub sign : Sign
  pub distance : ℕ
  pub running : String

-- The chunk, the member and the date, and whether the dependency is skipped.
pub record Target : Type 0 where
  pub is_skipped : Bool
  pub chunk : Option ℕ
  pub member : Option Text
  pub date : Option ℕ

pub record Lists : Type 0 where
  pub chunk_list : List ℕ
  pub member_list : List Text
  pub date_list : List ℕ

module _ {A : Type 0} where
  -- `xs[n]`
  unfoldable pub get_elem : List A → ℕ → Result A
  get_elem [] n = err index_error
  get_elem (x ∷ xs) zero = ok x
  get_elem (x ∷ xs) (suc n) = get_elem xs n

  -- `xs[n - d]`, which counts from the end where it is negative.
  unfoldable pub get_before : List A → ℕ → ℕ → Result A
  unfolding get_elem
  get_before xs n d =
      if leb d n
      then get_elem xs (n - d)
      else if leb (d - n) (length xs)
      then get_elem xs (length xs - (d - n))
      else err index_error

  -- The loop `while temp_distance > 0`: the first element from the far end that is there.
  unfoldable pub next_possible : List A → ℕ → ℕ → A → Result A
  unfolding get_elem
  next_possible xs index zero x = ok x
  next_possible xs index (suc distance) x =
      let rest = next_possible xs index distance x in
      if ltb (index + distance) (length xs) then get_elem xs (index + distance) else rest

-- `xs.index(x)`
unfoldable pub index_of : {A : Type 0} ⦃e : Eq A⦄ → List A → A → Result ℕ
index_of [] x = err value_error
index_of (y ∷ ys) x =
    let rest = index_of ys x in if y == x then ok 0 else (rest >>= λ n. ok (n + 1))

unfoldable pub same_place : Option ℕ → Option Text → Option ℕ → Bool → Target
same_place c m d skip = record { is_skipped = skip; chunk = c; member = m; date = d }

-- `member is not None and len(str(member)) > 0`
abbrev pub has_text : Option Text → Bool
has_text none = false
has_text (some []) = false
has_text (some (c ∷ t)) = true

module _ (l : Lists) (dep : Dependency) where
  unfoldable pub chunk_minus : ℕ → Option Text → Option ℕ → Result Target
  unfolding get_elem same_place
  chunk_minus c m d =
      if leb (dep.distance + 1) c
      then (get_elem l.chunk_list (c - 1 - dep.distance) >>= λ k.
          ok (same_place (some k) m d false))
      else ok (same_place (some c) m d true)

  unfoldable pub chunk_plus : ℕ → Option Text → Option ℕ → Result Target
  unfolding get_elem next_possible index_of same_place nat_eq
  chunk_plus c m d = do
    n ← index_of l.chunk_list c
    k ←
        if ltb (n + dep.distance) (length l.chunk_list)
        then get_elem l.chunk_list (n + dep.distance)
        else next_possible l.chunk_list n dep.distance c
    ok (same_place (some k) m d false)

  unfoldable pub member_minus : Option ℕ → Text → Option ℕ → Result Target
  unfolding get_elem index_of same_place list_eq nat_eq
  member_minus c m d = do
    n ← index_of l.member_list m
    if leb dep.distance n
        then (get_elem l.member_list (n - dep.distance) >>= λ k. ok (same_place c (some k) d false))
        else ok (same_place c (some m) d true)

  unfoldable pub member_plus : Option ℕ → Text → Option ℕ → Result Target
  unfolding get_elem index_of same_place list_eq nat_eq
  member_plus c m d = do
    n ← index_of l.member_list m
    if ltb (n + dep.distance) (length l.member_list)
        then (get_elem l.member_list (n + dep.distance) >>= λ k. ok (same_place c (some k) d false))
        else ok (same_place c (some m) d true)

  unfoldable pub date_minus : Option ℕ → Option Text → ℕ → Result Target
  unfolding get_elem index_of same_place nat_eq
  date_minus c m d = do
    n ← index_of l.date_list d
    if leb dep.distance n
        then (get_elem l.date_list (n - dep.distance) >>= λ k. ok (same_place c m (some k) false))
        else ok (same_place c m (some d) true)

  -- The source subtracts the distance here too.
  unfoldable pub date_plus : Option ℕ → Option Text → ℕ → Result Target
  unfolding get_before index_of same_place nat_eq
  date_plus c m d = do
    n ← index_of l.date_list d
    if ltb (n + dep.distance) (length l.date_list)
        then (get_before l.date_list n dep.distance >>= λ k. ok (same_place c m (some k) false))
        else ok (same_place c m (some d) true)

  -- The date is moved, where the dependency runs so often and there is one.
  unfoldable pub move_date : Option ℕ → Option Text → Option ℕ → Result Target
  unfolding date_minus date_plus same_place string_eq
  move_date c m none = ok (same_place c m none false)
  move_date c m (some d) =
      if contains ("chunk" ∷ "member" ∷ "startdate" ∷ []) dep.running
      then elim dep.sign [
        | minus ↦ date_minus c m d
        | plus ↦ date_plus c m d
        | other_sign ↦ ok (same_place c m (some d) false)
      ]
      else ok (same_place c m (some d) false)

  unfoldable pub move_member : Option ℕ → Option Text → Option ℕ → Result Target
  unfolding member_minus member_plus move_date same_place string_eq
  move_member c none d = move_date c none d
  move_member c (some m) d =
      if has_text (some m) && contains ("chunk" ∷ "member" ∷ []) dep.running
      then elim dep.sign [
        | minus ↦ member_minus c m d
        | plus ↦ member_plus c m d
        | other_sign ↦ ok (same_place c (some m) d false)
      ]
      else move_date c (some m) d

  unfoldable pub calculate_dependency_metadata : Option ℕ → Option Text → Option ℕ → Result Target
  unfolding chunk_minus chunk_plus move_member same_place string_eq
  calculate_dependency_metadata none m d = move_member none m d
  calculate_dependency_metadata (some c) m d =
      if dep.running == "chunk"
      then elim dep.sign [
        | minus ↦ chunk_minus c m d
        | plus ↦ chunk_plus c m d
        | other_sign ↦ ok (same_place (some c) m d false)
      ]
      else move_member (some c) m d
