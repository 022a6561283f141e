-- ===== src/JobList/Filters/Unknown.antt =====
-- Ranges whose first bound, in upper case, is none of the values.
use autosubmit.Prelude.{
  take, ℕ, ◌≡◌, refl, ap, ◌∙◌, ◌≢◌, false, some, List, [], ◌∷◌, ◌++◌, length, ◌==◌, nat_eq, list_eq,
  All, ok, err, value_error, arith,
}
use autosubmit.Prelude.Int.{pos, Text}
use autosubmit.Prelude.Texts.{upper, lower, upper_char, lower_char, is_in, starts_with}
use autosubmit.JobList.Distance.{index_of}
use autosubmit.JobList.Filters.{Value, text, value_eq, Level, is_chunks_to}
use autosubmit.JobList.Filters.Ranges.{Range, slice}
use autosubmit.JobList.Filters.Parse.{
  parse_filter_to_check, parse_filters_to_check, no_splits, values_of, listed, all_word, none_word,
  natural_word,
}
use autosubmit.JobList.Filters.Written.{
  IsPlain, IsName, ByText, written, count-written, range_of_two-written,
}
use autosubmit.JobList.Filters.Slices.{parse_one, every_zero}

upper-append : (s r : Text) → upper (s ++ r) ≡ upper s ++ upper r
unfolding upper
upper-append [] r = refl
upper-append (c ∷ s) r = ap (λ t. upper_char c ∷ t) (upper-append s r)

upper-written : (s e : Text) → upper (written s e) ≡ written (upper s) (upper e)
unfolding upper upper_char
upper-written s e =
    ap (λ t. b'[' ∷ t)
      (upper-append s (b':' ∷ (e ++ (b']' ∷ [])))
        ∙ ap (λ t. upper s ++ (b':' ∷ t)) (upper-append e (b']' ∷ [])))

upper_char-IsPlain : (c : ℕ) → IsPlain c → IsPlain (upper_char c)
unfolding upper_char
upper_char-IsPlain c h = ground (arith, h)

All-upper : (s : Text) → All IsPlain s → All IsPlain (upper s)
unfolding upper
All-upper [] h = tt
All-upper (c ∷ s) h = (upper_char-IsPlain c h.0, All-upper s h.1)

upper-IsName : (s : Text) → IsName s → IsName (upper s)
unfolding upper
upper-IsName [] h = absurd (h.0 refl)
upper-IsName (c ∷ s) h = ((λ e. absurd (cc)), All-upper (c ∷ s) h.1)

abbrev pub NoComma : Text → Type 0
NoComma = All (λ c. c ≢ b',')

comma_later : (s r : Text) → NoComma s → is_in (b',' ∷ []) (upper s ++ r) ≡ is_in (b',' ∷ []) r
unfolding upper upper_char is_in starts_with nat_eq
comma_later [] r h = refl
comma_later (c ∷ s) r h = ground (arith, comma_later s r h.1)

comma_written :
    (s e : Text) → NoComma s → NoComma e → is_in (b',' ∷ []) (written (upper s) (upper e)) ≡ false
unfolding is_in starts_with nat_eq
comma_written s e h k =
    comma_later s (b':' ∷ (upper e ++ (b']' ∷ []))) h ∙ comma_later e (b']' ∷ []) k

-- A range is none of the three words.
not_word : (s e w : Text) (c : ℕ) → c ≢ b'[' → (lower (written s e) == (c ∷ w)) ≡ false
unfolding lower lower_char
not_word s e w c h = ground arith

-- A text that is none of the words, and has no comma, is one filter.
one_filter :
    (level : Level) (xs : List Value) (s u : Text)
    → upper s ≡ u
    → (lower u == all_word) ≡ false
    → (lower u == none_word) ≡ false
    → (lower u == natural_word) ≡ false
    → is_in (b',' ∷ []) u ≡ false
    → parse_filters_to_check s xs level ≡ parse_filter_to_check u xs level no_splits
unfolding parse_filters_to_check
one_filter level xs s u e a n t c = rw (e, a, n, t, c) refl

range_parsed :
    (level : Level) (xs : List Value) (s e : Text)
    → NoComma s
    → NoComma e
    → parse_filters_to_check (written s e) xs level
      ≡ parse_filter_to_check (written (upper s) (upper e)) xs level no_splits
range_parsed level xs s e h k =
    one_filter level xs (written s e) (written (upper s) (upper e)) (upper-written s e)
      (not_word (upper s) (upper e) (b'l' ∷ (b'l' ∷ [])) b'a' (omega arith))
      (not_word (upper s) (upper e) (b'o' ∷ (b'n' ∷ (b'e' ∷ []))) b'n' (omega arith))
      (not_word (upper s) (upper e) (b'a' ∷ (b't' ∷ (b'u' ∷ (b'r' ∷ (b'a' ∷ (b'l' ∷ [])))))) b'n'
        (omega arith))
      (comma_written s e h k)

unknown_start :
    (level : Level) (v : Value) (vs : List Value) (s e : Text)
    → is_chunks_to level ≡ false
    → index_of (v ∷ vs) (text s) ≡ err value_error
    → values_of level (record { start = some (text s); end = some (text e); step = pos 1 }) (v ∷ vs)
      ≡ ok (take (length vs) (v ∷ vs))
unfolding values_of listed slice
unknown_start level v vs s e b u =
    rw (b, u) (ap ok (every_zero _ ∙ ap (λ n. take n (v ∷ vs)) (omega arith)))

-- A range "[N:M]" of a DATES_FROM or MEMBERS_FROM, with names without colons, brackets and commas,
-- whose N in upper case is none of the values of the list, names all values but the last one,
-- whatever N and M are.
pub parse_filters_to_check-unknown :
    (level : Level) (v : Value) (vs : List Value) (s e : Text)
    → ByText level
    → IsName s
    → IsName e
    → NoComma s
    → NoComma e
    → index_of (v ∷ vs) (text (upper s)) ≡ err value_error
    → parse_filters_to_check (written s e) (v ∷ vs) level ≡ ok (take (length vs) (v ∷ vs))
parse_filters_to_check-unknown level v vs s e b h k ch ck u =
    let h' = upper-IsName s h in
    let k' = upper-IsName e k in
    let r : Range = record {
      start = some (text (upper s));
      end = some (text (upper e));
      step = pos 1;
    } in
    range_parsed level (v ∷ vs) s e ch ck
    ∙ (parse_one level (written (upper s) (upper e)) (v ∷ vs) no_splits r b.1
          (count-written (upper s) (upper e) h'.1 k'.1)
          (range_of_two-written level (upper s) (upper e) b h' k')
        ∙ unknown_start level v vs (upper s) (upper e) b.2 u)
