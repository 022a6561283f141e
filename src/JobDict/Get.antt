-- ===== src/JobDict/Get.antt =====
-- `get_jobs` with `_get_date` and `_get_member`, without the sorting by `sort_string`.
use autosubmit.Prelude.{ℕ, Option, none, some, List, [], ◌∷◌, map, nat_eq, list_eq, Map, get_key}
use autosubmit.Prelude.Int.{Text}
use autosubmit.JobDict.Names.{DicJobs, Built}
use autosubmit.JobDict.Flatten.{flatten}
use autosubmit.JobDict.Create.{Entry, once, dates, members, chunks}

-- What is asked for, or all.
abbrev pub dates_of : DicJobs → Option ℕ → List ℕ
dates_of s none = s.date_list
dates_of s (some d) = d ∷ []

-- An empty text asks for all members.
abbrev pub members_of : DicJobs → Option Text → List Text
members_of s none = s.member_list
members_of s (some []) = s.member_list
members_of s (some (c ∷ m)) = (c ∷ m) ∷ []

abbrev pub chunks_of : DicJobs → Option ℕ → List ℕ
chunks_of s none = s.chunk_list
chunks_of s (some c) = c ∷ []

abbrev pub or_empty : {A : Type 0} → Option (List A) → List A
or_empty none = []
or_empty (some xs) = xs

-- The lists that are appended for the keys that are there.
unfoldable pub found_in : List ℕ → Map ℕ (List Built) → List (List Built)
unfolding get_key nat_eq
found_in [] m = []
found_in (k ∷ ks) m = elim (get_key k m) [ none ↦ found_in ks m | some js ↦ js ∷ found_in ks m ]

-- `_get_member` on a dictionary of lists, and on one of dictionaries by chunk.
unfoldable pub member_jobs : Text → Map Text (List Built) → List (List Built)
unfolding get_key list_eq nat_eq
member_jobs k m = elim (get_key k m) [ none ↦ [] | some js ↦ js ∷ [] ]

unfoldable pub member_chunks :
    DicJobs → Option ℕ → Text → Map Text (Map ℕ (List Built)) → List (List Built)
unfolding get_key found_in list_eq nat_eq
member_chunks s chunk k m = elim (get_key k m) [
  | none ↦ []
  | some d ↦ found_in (chunks_of s chunk) d
]

-- `_get_date`, for each of the three shapes.
unfoldable pub date_jobs : ℕ → Map ℕ (List Built) → List Built
unfolding get_key nat_eq
date_jobs k m = or_empty (get_key k m)

unfoldable pub date_members :
    DicJobs → Option Text → ℕ → Map ℕ (Map Text (List Built)) → List (List Built)
unfolding get_key member_jobs nat_eq
date_members s member k m = elim (get_key k m) [
  | none ↦ []
  | some d ↦ flatten (map (λ x. member_jobs x d) (members_of s member))
]

unfoldable pub date_chunks :
    DicJobs → Option Text → Option ℕ → ℕ → Map ℕ (Map Text (Map ℕ (List Built))) → List (List Built)
unfolding get_key member_chunks nat_eq
date_chunks s member chunk k m = elim (get_key k m) [
  | none ↦ []
  | some d ↦ flatten (map (λ x. member_chunks s chunk x d) (members_of s member))
]

-- The entry of the section, if it has one. Lists of lists are flattened at the end.
unfoldable pub get_jobs : DicJobs → Option Entry → Option ℕ → Option Text → Option ℕ → List Built
unfolding date_jobs date_members date_chunks
get_jobs s none date member chunk = []
get_jobs s (some (once js)) date member chunk = js
get_jobs s (some (dates m)) date member chunk = flatten (map (λ d. date_jobs d m) (dates_of s date))
get_jobs s (some (members m)) date member chunk =
    flatten (flatten (map (λ d. date_members s member d m) (dates_of s date)))
get_jobs s (some (chunks m)) date member chunk =
    flatten (flatten (map (λ d. date_chunks s member chunk d m) (dates_of s date)))
