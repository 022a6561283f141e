-- ===== src/JobList/Update/Retry/Growth.antt =====
-- The delay as a function of the number of failures, for each way of writing DELAY_RETRY_TIME.
use native.Mathlib.Nat.{pow-suc}
use autosubmit.Prelude.{
  ℕ, zero, suc, ◌+◌, ◌*◌, ◌^◌, ◌≡◌, refl, ap, ◌∙◌, true, false, [], ◌∷◌, ◌++◌, contains, nat_eq,
  some, ok, arith,
}
use autosubmit.Prelude.Int.{ℤ, pos, Text, int_of}
use autosubmit.JobList.Update.Retry.Delay.{int_value, drop_last, grow, retry_delay_of}

grow_lem : (n d : ℕ) → grow n (pos d) ≡ pos (d * 11 ^ n)
unfolding grow
grow_lem zero d = ap pos (omega arith)
grow_lem (suc n) d = grow_lem n (d + 10 * d) ∙ ap pos (rw pow-suc (omega arith))

drop_last-append : (s : Text) (c : ℕ) → drop_last (s ++ (c ∷ [])) ≡ s
unfolding drop_last
drop_last-append [] c = refl
drop_last-append (d ∷ []) c = refl
drop_last-append (d ∷ (e ∷ s)) c = ap (λ (t : Text). d ∷ t) (drop_last-append (e ∷ s) c)

contains-append : (s : Text) (c : ℕ) → contains (s ++ (c ∷ [])) c ≡ true
contains-append [] c = ground arith
contains-append (d ∷ s) c = ground (arith, contains-append s c)

read_int : (s : Text) {z : ℤ} → int_of s ≡ some z → int_value s ≡ ok z
unfolding int_value
read_int s h = rw h

scaled : (n d : ℕ) → pos (n * d + d) ≡ pos ((n + 1) * d)
scaled n d = ap pos (omega arith)

plus_delay :
    (n : ℕ) (s : Text) {d : ℕ}
    → contains s b'+' ≡ true
    → int_of (drop_last s) ≡ some (pos d)
    → retry_delay_of n s ≡ ok (pos ((n + 1) * d))
unfolding retry_delay_of
plus_delay n s {d} c h = rw c (rw (read_int (drop_last s) h) (ap ok (scaled n d)))

times_delay :
    (n : ℕ) (s : Text) {d : ℕ}
    → contains s b'+' ≡ false
    → int_of s ≡ some (pos d)
    → retry_delay_of n (b'*' ∷ s) ≡ ok (pos (d * 11 ^ n))
unfolding retry_delay_of
times_delay n s {d} c h = rw c (rw (read_int s h) (ap ok (grow_lem n d)))

-- The delay after `n` failures, for a base delay `s` without `+` and `*` that reads as `d`: `s+` grows linearly, to
-- (n + 1) * d; `*s` grows by a factor of eleven with each failure, to d * 11 ^ n; `s` alone is
-- constant.
pub retry_delay_forms :
    (n : ℕ) (s : Text) {d : ℕ}
    → contains s b'+' ≡ false
    → contains s b'*' ≡ false
    → int_of s ≡ some (pos d)
    → (retry_delay_of n (s ++ (b'+' ∷ [])) ≡ ok (pos ((n + 1) * d)))
      × (retry_delay_of n (b'*' ∷ s) ≡ ok (pos (d * 11 ^ n)))
      × (retry_delay_of n s ≡ ok (pos d))
retry_delay_forms n s {d} p t h = (
  plus_delay n (s ++ (b'+' ∷ [])) (contains-append s b'+')
      (ap int_of (drop_last-append s b'+') ∙ h),
  times_delay n s p h,
  unfold retry_delay_of in rw p (rw t (read_int s h)),
)

-- With the sign in front, the form that the documentation gives, the last character of the delay is
-- lost: `+s` followed by `c` delays as if `c` were not there, whatever `c` is.
pub retry_delay_plus_prefix :
    (n : ℕ) (s : Text) (c : ℕ) {d : ℕ}
    → int_of (b'+' ∷ s) ≡ some (pos d)
    → retry_delay_of n (b'+' ∷ (s ++ (c ∷ []))) ≡ ok (pos ((n + 1) * d))
retry_delay_plus_prefix n s c {d} h =
    plus_delay n (b'+' ∷ (s ++ (c ∷ []))) (unfold nat_eq in refl)
      (ap int_of (drop_last-append (b'+' ∷ s) c) ∙ h)
