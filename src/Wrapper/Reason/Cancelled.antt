-- ===== src/Wrapper/Reason/Cancelled.antt =====
-- For which texts `queuing_reason_cancel` (autosubmit/job/job.py) cancels.
use autosubmit.Prelude.{
  ℕ, String, Bool, true, false, ◌||◌, Option, none, some, ◌≡◌, refl, sym, ap, ◌∙◌, subst, ◌⊎◌, inl,
  inr, ◌↔◌, ◌++◌, arith, List, [], ◌∷◌, ◌==◌, ==-eq, ==_self, nat_eq, list_eq, contains, map, In,
  Bool-cases, Option-cases, append_nil,
}
use autosubmit.Prelude.Int.{Text}
use autosubmit.Prelude.Texts.{is_in, starts_with}
use autosubmit.Wrapper.Reason.{
  codes, after_first, before_first, known_reasons, is_known, queuing_reason_cancel,
}

-- The reasons of the scheduler that a job cannot wait out.
abbrev pub hopeless : List String
hopeless =
    "AssociationJobLimit" ∷ "AssociationResourceLimit" ∷ "AssociationTimeLimit" ∷ "BadConstraints"
    ∷ "QOSMaxCpuMinutesPerJobLimit" ∷ "QOSMaxWallDurationPerJobLimit" ∷ "QOSMaxNodePerJobLimit"
    ∷ "DependencyNeverSatisfied" ∷ "QOSMaxMemoryPerJob" ∷ "QOSMaxMemoryPerNode"
    ∷ "QOSMaxMemoryMinutesPerJob" ∷ "QOSMaxNodeMinutesPerJob" ∷ "InactiveLimit" ∷ "JobLaunchFailure"
    ∷ "NonZeroExitCode" ∷ "PartitionNodeLimit" ∷ "PartitionTimeLimit" ∷ "SystemFailure"
    ∷ "TimeLimit" ∷ "QOSUsageThreshold" ∷ "QOSTimeLimit" ∷ "QOSResourceLimit" ∷ "QOSJobLimit"
    ∷ "InvalidQOS" ∷ "InvalidAccount" ∷ []

-- The text ends, or goes on with a closing parenthesis.
abbrev pub IsClosed : Text → Type 0
IsClosed tail = (tail ≡ []) ⊎ ((rest : Text) × (tail ≡ b')' ∷ rest))

-- The text names a reason after its first opening parenthesis, up to the next closing one or to its
-- end, and the reason contains `Invalid` or is one of the hopeless ones.
pub record NamesHopeless (text : Text) : Type 0 where
  pub start : Text
  pub reason : Text
  pub tail : Text
  pub split : text ≡ start ++ (b'(' ∷ (reason ++ tail))
  pub first : contains start b'(' ≡ false
  pub unbroken : contains reason b')' ≡ false
  pub closed : IsClosed tail
  pub known :
      ((before : Text) × (after : Text) × (reason ≡ before ++ (codes "Invalid" ++ after)))
      ⊎ In reason (map codes hopeless)

module _ (c : ℕ) (t : Text) where
  after_first_lem : (p : Text) → contains p c ≡ false → after_first c (p ++ (c ∷ t)) ≡ some t
  unfolding after_first nat_eq
  after_first_lem [] h = ground arith
  after_first_lem (d ∷ p) h = ground (arith, h, after_first_lem p)

  before_first_lem : (p : Text) → contains p c ≡ false → before_first c (p ++ (c ∷ t)) ≡ p
  unfolding before_first nat_eq
  before_first_lem [] h = ground arith
  before_first_lem (d ∷ p) h = ground (arith, h, before_first_lem p)

before_first_whole : (c : ℕ) (p : Text) → contains p c ≡ false → before_first c p ≡ p
unfolding before_first nat_eq
before_first_whole c [] h = refl
before_first_whole c (d ∷ p) h = ground (arith, h, before_first_whole c p)

before_first-closed :
    (reason tail : Text)
    → contains reason b')' ≡ false
    → IsClosed tail
    → before_first b')' (reason ++ tail) ≡ reason
before_first-closed reason tail h closed = elim closed [
  | inl e ↦
      subst (λ x. before_first b')' (reason ++ x) ≡ reason) (sym e)
        (ap (before_first b')') (append_nil reason) ∙ before_first_whole b')' reason h)
  | inr (rest, e) ↦
      subst (λ x. before_first b')' (reason ++ x) ≡ reason) (sym e)
        (before_first_lem b')' rest reason h)
]

-- The text around the separator.
after_first-split :
    (c : ℕ) (s rest : Text)
    → after_first c s ≡ some rest
    → (start : Text) × (s ≡ start ++ (c ∷ rest)) × (contains start c ≡ false)
unfolding after_first
after_first-split c [] rest h = absurd (cc)
after_first-split c (d ∷ s) rest h = elim (Bool-cases (c == d)) [
  | inl e ↦
      let same : s ≡ rest = unwrap (rw e at h) in
      ([], ap (λ x. d ∷ x) same ∙ ap (λ x. x ∷ rest) (sym (==-eq c d e)), refl)
  | inr e ↦
      let (start, split, free) = after_first-split c s rest (rw e at h) in
      (d ∷ start, ap (λ x. d ∷ x) split, ground (arith, e, free))
]
  where
    unwrap : {x y : Text} → some x ≡ some y → x ≡ y
    unwrap e = cc

before_first-split :
    (s : Text)
    → (tail : Text) × (s ≡ before_first b')' s ++ tail)
      × (contains (before_first b')' s) b')' ≡ false)
      × IsClosed tail
unfolding before_first
before_first-split [] = ([], refl, refl, inl refl)
before_first-split (d ∷ s) = elim (Bool-cases (b')' == d)) [
  | inl e ↦ (d ∷ s, rw e refl, rw e refl, inr (s, ap (λ x. x ∷ s) (sym (==-eq b')' d e))))
  | inr e ↦
      let (tail, split, free, closed) = before_first-split s in
      (tail, rw e (ap (λ x. d ∷ x) split), rw e (ground (arith, e, free)), closed)
]

starts_with-split : (t s : Text) → starts_with t s ≡ true → (after : Text) × (s ≡ t ++ after)
unfolding starts_with
starts_with-split [] s h = (s, refl)
starts_with-split (c ∷ t) [] h = absurd (cc)
starts_with-split (c ∷ t) (d ∷ s) h =
    let (after, e) = starts_with-split t s (ground (arith, h)) in
    let same : c ≡ d = ground (arith, h) in
    (after, ap (λ x. d ∷ x) e ∙ ap (λ x. x ∷ (t ++ after)) (sym same))

is_in-split :
    (t s : Text)
    → is_in t s ≡ true
    → (before : Text) × (after : Text) × (s ≡ before ++ (t ++ after))
unfolding is_in
is_in-split t [] h = let (after, e) = starts_with-split t [] h in ([], after, e)
is_in-split t (c ∷ s) h = elim (Bool-cases (starts_with t (c ∷ s))) [
  | inl e ↦ let (after, split) = starts_with-split t (c ∷ s) e in ([], after, split)
  | inr e ↦
      let (before, after, split) = is_in-split t s (ground (arith, h, e)) in
      (c ∷ before, after, ap (λ x. c ∷ x) split)
]

starts_with-append : (t s : Text) → starts_with t (t ++ s) ≡ true
unfolding starts_with
starts_with-append [] s = refl
starts_with-append (c ∷ t) s = ground (arith, starts_with-append t s)

starts_with-is_in : (t s : Text) → starts_with t s ≡ true → is_in t s ≡ true
unfolding is_in
starts_with-is_in t [] h = h
starts_with-is_in t (c ∷ s) h = rw h refl

is_in-append : (t before after : Text) → is_in t (before ++ (t ++ after)) ≡ true
unfolding is_in
is_in-append t [] after = starts_with-is_in t (t ++ after) (starts_with-append t after)
is_in-append t (c ∷ before) after = ground (arith, is_in-append t before after)

contains-In : (xs : List Text) (x : Text) → contains xs x ≡ true → In x xs
contains-In [] x h = absurd (cc)
contains-In (y ∷ xs) x h = elim (Bool-cases (x == y)) [
  | inl e ↦ inl (==-eq x y e)
  | inr e ↦ inr (contains-In xs x (rw e at h))
]

In-contains : (xs : List Text) (x : Text) → In x xs → contains xs x ≡ true
In-contains [] x h = elim h [ ]
In-contains (y ∷ xs) x h = elim h [
  | inl same ↦ rw (ap (λ z. z == y) same ∙ ==_self y) refl
  | inr later ↦ or_true (x == y) (contains xs x) (In-contains xs x later)
]
  where
    or_true : (a b : Bool) → b ≡ true → (a || b) ≡ true
    or_true a b e = ground (arith, e)

is_known_iff :
    (reason : Text)
    → (is_known reason ≡ true) ↔ (
        ((before : Text) × (after : Text) × (reason ≡ before ++ (codes "Invalid" ++ after)))
        ⊎ In reason (map codes hopeless))
unfolding is_known known_reasons
is_known_iff reason = (
  (λ h. elim (Bool-cases (is_in (codes "Invalid") reason)) [
    | inl e ↦ inl (is_in-split (codes "Invalid") reason e)
    | inr e ↦ inr (contains-In (map codes hopeless) reason (rw e at h))
  ]),
  (λ k. elim k [
    | inl (before, after, e) ↦
        subst (λ x. (is_in (codes "Invalid") x || contains (map codes hopeless) x) ≡ true) (sym e)
          (rw (is_in-append (codes "Invalid") before after) refl)
    | inr member ↦
        rw (In-contains (map codes hopeless) reason member)
          (or_right (is_in (codes "Invalid") reason))
  ]),
)
  where
    or_right : (a : Bool) → (a || true) ≡ true
    or_right a = ground arith

-- A queuing job is cancelled exactly if the text of its reason names a hopeless one: after the first
-- opening parenthesis, up to the next closing one or the end of the text, it contains `Invalid` or is
-- one of the reasons that are listed. A text without an opening parenthesis never cancels.
pub queuing_reason_cancel_iff :
    (text : Text) → (queuing_reason_cancel text ≡ true) ↔ NamesHopeless text
unfolding queuing_reason_cancel
queuing_reason_cancel_iff text = (named text, cancelled text)
  where
    by_rest : Option Text → Bool
    by_rest none = false
    by_rest (some rest) = is_known (before_first b')' rest)

    clash : false ≡ true → ⊥
    clash e = cc

    named : (text : Text) → queuing_reason_cancel text ≡ true → NamesHopeless text
    named text h = elim (Option-cases (after_first b'(' text)) [
      | inl e ↦ absurd (clash (sym (ap by_rest e) ∙ h))
      | inr (rest, e) ↦
          let (start, split, first) = after_first-split b'(' text rest e in
          let (tail, parts, unbroken, closed) = before_first-split rest in
          record {
            start = start;
            reason = before_first b')' rest;
            tail = tail;
            split = split ∙ ap (λ x. start ++ (b'(' ∷ x)) parts;
            first = first;
            unbroken = unbroken;
            closed = closed;
            known = (is_known_iff (before_first b')' rest)).0 (sym (ap by_rest e) ∙ h);
          }
    ]

    cancelled : (text : Text) → NamesHopeless text → queuing_reason_cancel text ≡ true
    cancelled text n =
        subst (λ x. queuing_reason_cancel x ≡ true) (sym n.split)
          (ap by_rest (after_first_lem b'(' (n.reason ++ n.tail) n.start n.first)
            ∙ ap is_known (before_first-closed n.reason n.tail n.unbroken n.closed)
            ∙ (is_known_iff n.reason).1 n.known)
