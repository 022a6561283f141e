-- ===== src/Experiment/Encoding.antt =====
-- Encoding and decoding, and the successor of an identifier.
use native.Mathlib.Nat.{div-add-mod', mod-lt}
use autosubmit.Prelude.{
  ℕ, zero, suc, ◌+◌, ◌-◌, ◌*◌, ◌/◌, ◌%◌, ◌≤◌, ◌<◌, ◌≡◌, refl, ap, ◌∙◌, true, false, Option, none,
  some, [], ◌∷◌, ◌++◌, nat_eq, ltb, length, all, ok, arith, Bool-cases, inl, inr,
}
use autosubmit.Prelude.Int.{pos, Text}
use autosubmit.Experiment.{
  digit, encode_from, zeros, rjust, base36encode, digit_value, decode_from, digits_of, signed,
  base36decode, is_alnum, is_valid_experiment_id, next_experiment_id,
}

digit_value-digit : (i : ℕ) → i < 36 → digit_value (digit i) ≡ some i
unfolding digit_value digit
digit_value-digit i h = ground arith

digit-is_alnum : (i : ℕ) → i < 36 → is_alnum (digit i) ≡ true
unfolding digit
digit-is_alnum i h = ground arith

split : (n : ℕ) → n / 36 * 36 + n % 36 ≡ n
split n = div-add-mod' n 36

smaller : (n : ℕ) → 0 < n → n / 36 < n
smaller n h = omega arith

decode_step :
    (acc i : ℕ) (rest : Text)
    → i < 36
    → decode_from acc (digit i ∷ rest) ≡ decode_from (acc * 36 + i) rest
unfolding decode_from
decode_step acc i rest h = ap after (digit_value-digit i h)
  where
    after : Option ℕ → Option ℕ
    after o = elim o [ none ↦ none | some d ↦ decode_from (acc * 36 + d) rest ]

decode-encode :
    (fuel n : ℕ) (rest : Text)
    → n ≤ fuel
    → decode_from 0 (encode_from fuel n rest) ≡ decode_from n rest
unfolding encode_from
decode-encode zero n rest h = ap (λ k. decode_from k rest) (omega arith)
decode-encode (suc fuel) n rest h = elim (Bool-cases (ltb 0 n)) [
  | inr z ↦ rw z (ap (λ k. decode_from k rest) (ground arith))
  | inl p ↦ rw p (
      decode-encode fuel (n / 36) (digit (n % 36) ∷ rest) (ground (arith, smaller n))
      ∙ (decode_step (n / 36) (n % 36) rest (mod-lt n (omega arith))
          ∙ ap (λ k. decode_from k rest) (split n)))
]

encode_from-alnum :
    (fuel n : ℕ) (rest : Text)
    → all is_alnum rest ≡ true
    → all is_alnum (encode_from fuel n rest) ≡ true
unfolding encode_from
encode_from-alnum zero n rest h = h
encode_from-alnum (suc fuel) n rest h = elim (Bool-cases (ltb 0 n)) [
  | inr z ↦ rw z h
  | inl p ↦ rw p (
      encode_from-alnum fuel (n / 36) (digit (n % 36) ∷ rest)
        (rw (digit-is_alnum (n % 36) (mod-lt n (omega arith))) h))
]

zeros-alnum : (k : ℕ) (s : Text) → all is_alnum s ≡ true → all is_alnum (zeros k ++ s) ≡ true
zeros-alnum zero s h = h
zeros-alnum (suc k) s h = zeros-alnum k s h

length-zeros : (k : ℕ) (s : Text) → length (zeros k ++ s) ≡ k + length s
length-zeros zero s = omega arith
length-zeros (suc k) s = ground (arith, length-zeros k s)

decode-zeros : (k : ℕ) (s : Text) → decode_from 0 (zeros k ++ s) ≡ decode_from 0 s
unfolding digit
decode-zeros zero s = refl
decode-zeros (suc k) s = decode_step 0 0 (zeros k ++ s) (omega arith) ∙ decode-zeros k s

-- A text of letters and digits has no sign.
decode_unsigned :
    (t : Text)
    → all is_alnum t ≡ true
    → 1 ≤ length t
    → base36decode t ≡ signed false (decode_from 0 t)
unfolding base36decode digits_of nat_eq
decode_unsigned [] h k = absurd (omega arith)
decode_unsigned (c ∷ s) h k = ground arith

-- The text of a positive number: letters and digits, at least four of them, that decode to it.
encoded :
    (n : ℕ)
    → 0 < n
    → (t : Text) × (base36encode (pos n) ≡ t)
      × (all is_alnum t ≡ true)
      × (4 ≤ length t)
      × (decode_from 0 t ≡ some n)
unfolding base36encode
encoded n h = (
  rjust e,
  ground arith,
  zeros-alnum (4 - length e) e (encode_from-alnum n n [] refl),
  omega (arith, length-zeros (4 - length e) e),
  decode-zeros (4 - length e) e
      ∙ (decode-encode n n [] (omega arith) ∙ (unfold decode_from in refl)),
)
  where
    e : Text
    e = encode_from n n []

-- Encoding a number that is not negative and decoding the text gives the number again.
pub base36decode-base36encode : (n : ℕ) → base36decode (base36encode (pos n)) ≡ ok (pos n)
base36decode-base36encode zero =
    unfold base36encode base36decode digits_of decode_from digit_value signed nat_eq in refl
base36decode-base36encode (suc n) =
    let (t, e, a, l, d) = encoded (suc n) (omega arith) in
    ap base36decode e
    ∙ (decode_unsigned t a (omega arith) ∙ ap (signed false) d ∙ (unfold signed in refl))

-- For a valid identifier that decodes to a number that is not negative, the next identifier is
-- valid too, and decodes to the next number.
pub next_experiment_id_lem :
    (current : Text) (n : ℕ)
    → is_valid_experiment_id current ≡ ok true
    → base36decode current ≡ ok (pos n)
    → (t : Text) × (next_experiment_id current ≡ ok t)
      × (is_valid_experiment_id t ≡ ok true)
      × (base36decode t ≡ ok (pos (n + 1)))
unfolding next_experiment_id
next_experiment_id_lem current n valid number =
    let (t, e, a, l, d) = encoded (n + 1) (omega arith) in
    let again : is_valid_experiment_id t ≡ ok true =
      unfold is_valid_experiment_id in ground arith in
    (
      t,
      rw (valid, number, e, again) refl,
      again,
      decode_unsigned t a (omega arith) ∙ ap (signed false) d ∙ (unfold signed in refl),
    )
