-- ===== src/JobList/Filters/Written.antt =====
-- The texts of the ranges [N:M], [:M] and [N:], and the bounds that are read from them.
use mathlib.Core.List.{reverse, reverse-cons, reverse-append, reverse-reverse}
use autosubmit.Prelude.{
  ℕ, suc, ◌+◌, ◌≡◌, refl, sym, ap, ◌∙◌, subst, ◌≢◌, false, some, none, [], ◌∷◌, ◌++◌, append_assoc,
  append_nil, length, nat_eq, All, All-append, ok, arith,
}
use autosubmit.Prelude.Int.{pos, Text}
use autosubmit.Prelude.Texts.{count, split, split_from, strip, strip_start}
use autosubmit.JobList.Distance.{get_elem, get_before}
use autosubmit.JobList.Filters.{text, value_eq, Level, numbers_from, about_splits, is_chunks_to}
use autosubmit.JobList.Filters.Ranges.{range_of_two, bounds_of, colon_at, colon_before, part, bound}

abbrev brackets : Text
brackets = b'[' ∷ b']' ∷ []

-- The text is not empty, and has no colon and no bracket.
abbrev pub IsPlain : ℕ → Type 0
IsPlain c = (c ≢ b':') × (c ≢ b'[') × (c ≢ b']')

abbrev pub IsName : Text → Type 0
IsName s = (s ≢ []) × All IsPlain s

count_plain : (s r : Text) → All IsPlain s → count b':' (s ++ r) ≡ count b':' r
unfolding count
count_plain [] r h = refl
count_plain (c ∷ s) r h = ground (arith, count_plain s r h.1)

split_plain :
    (s r cur : Text) → All IsPlain s → split_from b':' (s ++ r) cur ≡ split_from b':' r (cur ++ s)
unfolding split_from
split_plain [] r cur h = ap (split_from b':' r) (sym (append_nil cur))
split_plain (c ∷ s) r cur h =
    ground (arith, split_plain s r (cur ++ (c ∷ [])) h.1, append_assoc cur (c ∷ []) s)

strip_start_plain : (s r : Text) → s ≢ [] → All IsPlain s → strip_start brackets (s ++ r) ≡ s ++ r
unfolding strip_start
strip_start_plain [] r n h = absurd (n refl)
strip_start_plain (c ∷ s) r n h = ground arith

strip_start_name : (s : Text) → All IsPlain s → strip_start brackets s ≡ s
unfolding strip_start
strip_start_name [] h = refl
strip_start_name (c ∷ s) h = ground arith

All-reverse : (s : Text) → All IsPlain s → All IsPlain (reverse s)
All-reverse [] h = tt
All-reverse (c ∷ s) h =
    subst (All IsPlain) (sym (reverse-cons c s))
      (All-append IsPlain (reverse s) (c ∷ []) (All-reverse s h.1) (h.0, tt))

strip_name : (s : Text) → All IsPlain s → strip brackets s ≡ s
unfolding strip
strip_name s h =
    ap (λ x. reverse (strip_start brackets (reverse x))) (strip_start_name s h)
    ∙ (ap reverse (strip_start_name (reverse s) (All-reverse s h)) ∙ reverse-reverse s)

strip_open : (s : Text) → All IsPlain s → strip brackets (b'[' ∷ s) ≡ s
unfolding strip strip_start nat_eq
strip_open s h = strip_name s h

strip_close : (s : Text) → IsName s → strip brackets (s ++ (b']' ∷ [])) ≡ s
unfolding strip
strip_close s (n, h) =
    ap (λ x. reverse (strip_start brackets (reverse x))) (strip_start_plain s (b']' ∷ []) n h)
    ∙ (ap (λ x. reverse (strip_start brackets x)) (reverse-append s (b']' ∷ []))
        ∙ (ap reverse (closing (reverse s)) ∙ strip_after))
  where
    closing : (r : Text) → strip_start brackets (b']' ∷ r) ≡ strip_start brackets r
    closing r = unfold strip_start nat_eq in refl

    strip_after : reverse (strip_start brackets (reverse s)) ≡ s
    strip_after = ap reverse (strip_start_name (reverse s) (All-reverse s h)) ∙ reverse-reverse s

-- `s[-2]` of a text with two characters at its end.
module _ (c d : ℕ) where
  length-append_two : (s : Text) → length (s ++ (c ∷ (d ∷ []))) ≡ length s + 2
  length-append_two [] = omega arith
  length-append_two (x ∷ s) = omega (arith, length-append_two s)

  get_elem_last_two : (s : Text) → get_elem (s ++ (c ∷ (d ∷ []))) (length s) ≡ ok c
  unfolding get_elem
  get_elem_last_two [] = refl
  get_elem_last_two (x ∷ s) = get_elem_last_two s

  get_before_last_two : (s : Text) → get_before (s ++ (c ∷ (d ∷ []))) 0 2 ≡ ok c
  unfolding get_before
  get_before_last_two s = ground (arith, length-append_two s, get_elem_last_two s)

-- The last character of a name.
last_view : (s : Text) → IsName s → (r : Text) × (c : ℕ) × (s ≡ r ++ (c ∷ [])) × IsPlain c
last_view [] (n, h) = absurd (n refl)
last_view (c ∷ []) (n, h) = ([], c, refl, h.0)
last_view (c ∷ (d ∷ s)) (n, h) =
    let (r, x, e, p) = last_view (d ∷ s) ((λ z. absurd (cc)), h.1) in
    (c ∷ r, x, ap (λ t. c ∷ t) e, p)

-- `[N:M]`
abbrev pub written : Text → Text → Text
written s e = b'[' ∷ (s ++ (b':' ∷ (e ++ (b']' ∷ []))))

pub count-written : (s e : Text) → All IsPlain s → All IsPlain e → count b':' (written s e) ≡ 1
unfolding count nat_eq
count-written s e h k =
    count_plain s (b':' ∷ (e ++ (b']' ∷ []))) h ∙ ap suc (count_plain e (b']' ∷ []) k)

split-written :
    (s e : Text)
    → All IsPlain s
    → All IsPlain e
    → split b':' (written s e) ≡ (b'[' ∷ s) ∷ ((e ++ (b']' ∷ [])) ∷ [])
unfolding split split_from nat_eq
split-written s e h k =
    split_plain s (b':' ∷ (e ++ (b']' ∷ []))) (b'[' ∷ []) h
    ∙ ap (λ r. (b'[' ∷ s) ∷ r) (split_plain e (b']' ∷ []) [] k)

-- The level's values are compared as texts: DATES_FROM, MEMBERS_FROM, DATES_TO and MEMBERS_TO.
abbrev pub ByText : Level → Type 0
ByText level =
    (numbers_from level ≡ false) × (about_splits level ≡ false) × (is_chunks_to level ≡ false)

bound_of :
    (level : Level) (raw s : Text)
    → ByText level
    → strip brackets raw ≡ s
    → bound level raw ≡ ok (text s)
unfolding bound
bound_of level raw s b e = rw b.0 (ap (λ x. ok (text x)) e)

part_of :
    (n : ℕ) (s a b : Text) → split b':' s ≡ a ∷ (b ∷ []) → part n s ≡ get_elem (a ∷ (b ∷ [])) n
unfolding part
part_of n s a b e = ap (λ x. get_elem x n) e

between_written :
    (level : Level) (s e : Text)
    → ByText level
    → IsName s
    → IsName e
    → bounds_of level (written s e) (pos 1)
      ≡ ok (record { start = some (text s); end = some (text e); step = pos 1 })
unfolding get_elem
between_written level s e b h k =
    let parts = split-written s e h.1 k.1 in
    rw (
      part_of 0 (written s e) (b'[' ∷ s) (e ++ (b']' ∷ [])) parts,
      part_of 1 (written s e) (b'[' ∷ s) (e ++ (b']' ∷ [])) parts,
      bound_of level (b'[' ∷ s) s b (strip_open s h.1),
      bound_of level (e ++ (b']' ∷ [])) e b (strip_close e k),
    )

-- Neither `s[1]` nor `s[-2]` is a colon.
opens_not : (s e : Text) → IsName s → colon_at (written s e) 1 ≡ ok false
unfolding get_elem nat_eq
opens_not [] e h = absurd (h.0 refl)
opens_not (c ∷ s) e h = ground (arith, h.1)

closes_not : (s e : Text) → IsName e → colon_before (written s e) 2 ≡ ok false
closes_not s e k =
    let (r, c, same, p) = last_view e k in
    rw (shape r c same, get_before_last_two c b']' (b'[' ∷ (s ++ (b':' ∷ r)))) (ground (arith, p))
  where
    shape :
        (r : Text) (c : ℕ)
        → e ≡ r ++ (c ∷ [])
        → written s e ≡ (b'[' ∷ (s ++ (b':' ∷ r))) ++ (c ∷ (b']' ∷ []))
    shape r c same = rw same (
        ap (λ t. b'[' ∷ (s ++ (b':' ∷ t))) (append_assoc r (c ∷ []) (b']' ∷ []))
        ∙ ap (λ t. b'[' ∷ t) (sym (append_assoc s (b':' ∷ r) (c ∷ (b']' ∷ [])))))

pub range_of_two-written :
    (level : Level) (s e : Text)
    → ByText level
    → IsName s
    → IsName e
    → range_of_two level (written s e)
      ≡ ok (record { start = some (text s); end = some (text e); step = pos 1 })
unfolding range_of_two
range_of_two-written level s e b h k =
    rw (opens_not s e h, closes_not s e k) (between_written level s e b h k)

pub range_of_two-to_end :
    (level : Level) (e : Text)
    → ByText level
    → IsName e
    → range_of_two level (written [] e)
      ≡ ok (record { start = none; end = some (text e); step = pos 1 })
unfolding range_of_two get_elem nat_eq
range_of_two-to_end level e b k = rw (
  part_of 1 (written [] e) (b'[' ∷ []) (e ++ (b']' ∷ [])) (split-written [] e tt k.1),
  bound_of level (e ++ (b']' ∷ [])) e b (strip_close e k),
)

pub range_of_two-from_start :
    (level : Level) (s : Text)
    → ByText level
    → IsName s
    → range_of_two level (written s [])
      ≡ ok (record { start = some (text s); end = none; step = pos 1 })
unfolding range_of_two get_elem nat_eq
range_of_two-from_start level s b h = rw (
  opens_not s [] h,
  get_before_last_two b':' b']' (b'[' ∷ s),
  part_of 0 (written s []) (b'[' ∷ s) (b']' ∷ []) (split-written s [] h.1 tt),
  bound_of level (b'[' ∷ s) s b (strip_open s h.1),
)
