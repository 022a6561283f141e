-- ===== src/Packager/Bounds/Order.antt =====
-- Limits that are in order stay so.
use native.Mathlib.Nat.{le-mul_of_pos_right, mul_comm}
use autosubmit.Prelude.{
  ℕ, ◌*◌, ◌≤◌, subst, String, Bool, true, false, ◌&&◌, ◌||◌, Option, List, ◌==◌, nat_eq, string_eq,
  ltb, length, map, if◌then◌else◌, arith, Bool-cases, inl, inr,
}
use autosubmit.JobList.State.{JobList}
use autosubmit.Packager.Bounds.{
  WrapperData, WrapperLimits, get, adjust, max_of, default_limits, read_limits,
  calculate_wrapper_bounds,
}

-- Each least number is at least one and at most the greatest.
pub record IsOrdered (w : WrapperLimits) : Type 0 where
  pub total_positive : 1 ≤ w.min_total
  pub total_ordered : w.min_total ≤ w.max_total
  pub v_positive : 1 ≤ w.min_v
  pub v_ordered : w.min_v ≤ w.max_v
  pub h_positive : 1 ≤ w.min_h
  pub h_ordered : w.min_h ≤ w.max_h

-- The two totals of `adjust`, whatever the products are.
totals :
    (least most v h v' h' product product' : ℕ)
    → 1 ≤ least
    → least ≤ most
    → 1 ≤ v
    → v ≤ v'
    → h ≤ h'
    → v' ≤ product'
    → h' ≤ product'
    → (1 ≤ (if ltb least product then max_of v h else least))
      × ((if ltb least product then max_of v h else least)
          ≤ (if ltb most product' then product' else most))
      × (v' ≤ (if ltb most product' then product' else most))
      × (h' ≤ (if ltb most product' then product' else most))
totals least most v h v' h' product product' a b c d e f g =
    (ground arith, ground arith, ground arith, ground arith)

-- One direction of `adjust`.
direction :
    (low high least most : ℕ) (always : Bool)
    → 1 ≤ low
    → low ≤ high
    → 1 ≤ least
    → least ≤ most
    → high ≤ most
    → (1 ≤ (if low == 1 && always then least else low))
      × ((if low == 1 && always then least else low) ≤ (if high == 1 || always then most else high))
direction low high least most true a b c d e = (ground arith, ground arith)
direction low high least most false a b c d e = (ground arith, ground arith)

adjust-IsOrdered : (t : String) (w : WrapperLimits) → IsOrdered w → IsOrdered (adjust t w)
unfolding adjust
adjust-IsOrdered t w o =
    let (a, b, c, d) =
      totals w.min_total w.max_total w.min_v w.min_h w.max_v w.max_h (w.min_v * w.min_h)
        (w.max_v * w.max_h) o.total_positive o.total_ordered o.v_positive o.v_ordered o.h_ordered
        (le-mul_of_pos_right w.max_v (omega (arith, o.h_positive, o.h_ordered)))
        (subst (λ x. w.max_h ≤ x) (mul_comm w.max_h w.max_v)
          (le-mul_of_pos_right w.max_h (omega (arith, o.v_positive, o.v_ordered)))) in
    let v = direction w.min_v w.max_v least most (t == "vertical") o.v_positive o.v_ordered a b c in
    let h =
      direction w.min_h w.max_h least most (t == "horizontal") o.h_positive o.h_ordered a b d in
    record {
      total_positive = a;
      total_ordered = b;
      v_positive = v.0;
      v_ordered = v.1;
      h_positive = h.0;
      h_ordered = h.1;
    }
  where
    most : ℕ
    most = if ltb w.max_total (w.max_v * w.max_h) then w.max_v * w.max_h else w.max_total

    least : ℕ
    least = if ltb w.min_total (w.min_v * w.min_h) then max_of w.min_v w.min_h else w.min_total

-- If each least number that is configured is at least one and at most the greatest, so are the
-- computed ones, in all and in each direction; and `real_min` is at least 2 and at least the
-- least number in all.
pub calculate_wrapper_bounds-IsOrdered :
    (all_data own : WrapperData) (section_max : String → Option ℕ) (sections : List String)
    (l : JobList)
    → IsOrdered (read_limits all_data own)
    → IsOrdered (calculate_wrapper_bounds all_data own section_max sections l)
      × (2 ≤ (calculate_wrapper_bounds all_data own section_max sections l).real_min)
      × ((calculate_wrapper_bounds all_data own section_max sections l).min_total
          ≤ (calculate_wrapper_bounds all_data own section_max sections l).real_min)
unfolding calculate_wrapper_bounds
calculate_wrapper_bounds-IsOrdered all_data own section_max sections l o =
    elim (Bool-cases (length l.jobs_to_run_first == 0)) [
      | inl e ↦ rw e (
          same (adjust (get own.type_name "") (read_limits all_data own))
            (adjust-IsOrdered (get own.type_name "") (read_limits all_data own) o))
      | inr e ↦ rw e (same default_limits defaults)
    ]
  where
    defaults : IsOrdered default_limits
    defaults = record {
      total_positive = omega arith;
      total_ordered = omega arith;
      v_positive = omega arith;
      v_ordered = omega arith;
      h_positive = omega arith;
      h_ordered = omega arith;
    }

    same :
        (w : WrapperLimits)
        → IsOrdered w
        → IsOrdered (record w {
          max_by_section = map (λ s. (s, get (section_max s) w.max_total)) sections;
          real_min = max_of 2 w.min_total;
        })
          × (2 ≤ max_of 2 w.min_total)
          × (w.min_total ≤ max_of 2 w.min_total)
    same w o = (
      record {
        total_positive = o.total_positive;
        total_ordered = o.total_ordered;
        v_positive = o.v_positive;
        v_ordered = o.v_ordered;
        h_positive = o.h_positive;
        h_ordered = o.h_ordered;
      },
      ground arith,
      ground arith,
    )
