-- ===== src/Experiment.antt =====
-- The identifiers of experiments: `base36encode`, `base36decode`, `is_valid_experiment_id` and
-- `next_experiment_id` of autosubmit/experiment/experiment_common.py.
pub mod Encoding
use autosubmit.Prelude.{
  ℕ, zero, suc, ◌+◌, ◌-◌, ◌*◌, ◌/◌, ◌%◌, Bool, true, false, not, ◌&&◌, ◌||◌, Option, none, some,
  List, [], ◌∷◌, ◌++◌, ◌==◌, nat_eq, ltb, leb, if◌then◌else◌, length, all, Result, ok, err,
  value_error, critical, ◌>>=◌,
}
use autosubmit.Prelude.Int.{ℤ, pos, negsuc, Text, ◌+ℤ◌, neg}

-- `alphabet[i]`, the digits and the small letters.
unfoldable pub digit : ℕ → ℕ
digit i = if ltb i 10 then b'0' + i else b'a' + (i - 10)

-- `while number > 0`; the fuel is the number itself, which each round makes smaller.
unfoldable pub encode_from : ℕ → ℕ → Text → Text
unfolding digit nat_eq
encode_from zero number base36 = base36
encode_from (suc fuel) number base36 =
    let rest = encode_from fuel (number / 36) (digit (number % 36) ∷ base36) in
    if ltb 0 number then rest else base36

abbrev pub zeros : ℕ → Text
zeros zero = []
zeros (suc n) = b'0' ∷ zeros n

-- `s.rjust(4, '0')`
abbrev pub rjust : Text → Text
rjust s = zeros (4 - length s) ++ s

unfoldable pub base36encode : ℤ → Text
unfolding encode_from nat_eq
base36encode (pos n) = if n == 0 then b'0' ∷ [] else rjust (encode_from n n [])
base36encode (negsuc n) = b'-' ∷ rjust (encode_from (n + 1) (n + 1) [])

abbrev pub between : ℕ → ℕ → ℕ → Bool
between a b c = leb a c && leb c b

-- The value of a digit of base 36, in either case.
unfoldable pub digit_value : ℕ → Option ℕ
digit_value c =
    if between b'0' b'9' c
    then some (c - b'0')
    else if between b'a' b'z' c
    then some (c - b'a' + 10)
    else if between b'A' b'Z' c
    then some (c - b'A' + 10)
    else none

unfoldable pub decode_from : ℕ → Text → Option ℕ
unfolding digit_value
decode_from acc [] = some acc
decode_from acc (c ∷ s) = elim (digit_value c) [
  | none ↦ none
  | some d ↦ decode_from (acc * 36 + d) s
]

digits_of : Text → Option ℕ
unfolding decode_from
digits_of [] = none
digits_of (c ∷ s) = decode_from 0 (c ∷ s)

signed : Bool → Option ℕ → Result ℤ
signed minus none = err value_error
signed minus (some n) = ok (if minus then neg n else pos n)

-- `int(number, 36)`. (Blanks and underscores, which Python also takes, do not occur in an identifier
-- that is valid.)
unfoldable pub base36decode : Text → Result ℤ
unfolding signed digits_of nat_eq
base36decode [] = err value_error
base36decode (c ∷ s) =
    if c == b'-'
    then signed true (digits_of s)
    else if c == b'+'
    then signed false (digits_of s)
    else signed false (digits_of (c ∷ s))

-- `str.isalnum` of one character of ASCII.
abbrev pub is_alnum : ℕ → Bool
is_alnum c = between b'0' b'9' c || (between b'a' b'z' c || between b'A' b'Z' c)

-- It answers `True` or raises. (`name.lower()` changes neither test.)
unfoldable pub is_valid_experiment_id : Text → Result Bool
is_valid_experiment_id name =
    if ltb (length name) 4 || not (all is_alnum name) then err critical else ok true

unfoldable pub next_experiment_id : Text → Result Text
unfolding base36encode base36decode is_valid_experiment_id
next_experiment_id current = do
  valid ← is_valid_experiment_id current
  number ← base36decode current
  let next_id = base36encode (number +ℤ pos 1)
  again ← is_valid_experiment_id next_id
  ok (if again then next_id else [])
