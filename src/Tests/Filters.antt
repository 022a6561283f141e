-- ===== src/Tests/Filters.antt =====
-- Filters of dependencies, on the values of the unit tests (test/unit/test_dependencies.py).
use Prim.Native.Char.{code}
use autosubmit.Prelude.{
  String, none, some, List, [], ◌∷◌, ◌≡◌, refl, ok, err, value_error, arith, attribute_error,
}
use autosubmit.Prelude.Int.{Text, pos}
use autosubmit.JobList.Filters.{
  Value, text, int, value_eq, dates_from, members_from, chunks_from, splits_from,
}
use autosubmit.JobList.Filters.Parse.{
  parse_filter_to_check, parse_filters_to_check, no_splits, last_value,
}
use autosubmit.JobList.Filters.Unify.{Filter, empty, unify_to_filters}
use autosubmit.JobList.Filters.Levels.{
  Relationship, relationship, absent, level, range, end, Current, Known,
}
use autosubmit.JobList.Distance.{index_of}
use autosubmit.Prelude.Texts.{upper}
use autosubmit.JobList.Filters.Written.{IsName}
use autosubmit.JobList.Filters.Slices.{parse_filter_to_check-written}
use autosubmit.JobList.Filters.Unknown.{parse_filters_to_check-unknown}
use autosubmit.JobList.Filters.Check.{get_filters_to_apply}

abbrev t : String → Text
t String.[] = []
t (String.◌∷◌ c s) = code c ∷ t s

abbrev names : List String → List Value
names [] = []
names (s ∷ ss) = text (t s) ∷ names ss

abbrev date_list : List Value
date_list = names ("20020201" ∷ ("20020202" ∷ ("20020203" ∷ ("20020204" ∷ []))))

abbrev chunk_list : List Value
chunk_list = int (pos 1) ∷ (int (pos 2) ∷ (int (pos 3) ∷ []))

program : Unit {0}
unfolding parse_filter_to_check parse_filters_to_check get_filters_to_apply unify_to_filters
program = tt

range_of_dates :
    parse_filter_to_check (t "[20020201:20020203]") date_list dates_from no_splits
    ≡ ok (names ("20020201" ∷ ("20020202" ∷ ("20020203" ∷ []))))
unfolding program
range_of_dates = refl

range_with_step :
    parse_filter_to_check (t "[::2]") date_list dates_from no_splits
    ≡ ok (names ("20020201" ∷ ("20020203" ∷ [])))
unfolding program
range_with_step = refl

range_of_chunks :
    parse_filter_to_check (t "[1:2]") chunk_list chunks_from no_splits
    ≡ ok (int (pos 1) ∷ (int (pos 2) ∷ []))
unfolding program
range_of_chunks = refl

range_of_splits :
    parse_filter_to_check (t "[1:2]") [] splits_from no_splits
    ≡ ok (int (pos 1) ∷ (int (pos 2) ∷ []))
unfolding program
range_of_splits = refl

values_and_range :
    parse_filters_to_check (t "20020201,[20020203:20020204]") date_list dates_from
    ≡ ok (names ("20020201" ∷ ("20020203" ∷ ("20020204" ∷ []))))
unfolding program
values_and_range = refl

abbrev known : Known
known = record {
  lists = record {
    date_list = date_list;
    member_list = names ("fc1" ∷ ("fc2" ∷ []));
    chunk_list = chunk_list;
    str_of_date = λ d. [];
  };
  date_texts = date_list;
}

abbrev current : Current
current = record {
  date = t "20020201";
  member = some (t "fc2");
  chunk = some 1;
  split = some 1;
  splits = t "2";
}

abbrev wanted : Filter
wanted = record empty {
  dates = some (t "20020201");
  members = some (t "fc2");
  chunks = some (t "all");
  splits = some (t "1");
}

abbrev by_member : Relationship
by_member =
    relationship empty absent
      (level none none (
        range (t "fc2")
          (relationship empty absent absent absent (
            level none none
              (range (t "ALL") (relationship wanted absent absent absent absent) end)))
          end))
      absent absent

nested_levels : get_filters_to_apply known current (some by_member) ≡ ok wanted
unfolding program
nested_levels = refl

other_member :
    get_filters_to_apply known (record current { member = some (t "fc3") }) (some by_member)
    ≡ ok empty
unfolding program
other_member = refl

-- Chunk 1 is lost after chunk 11, whose text ends like it.
lost_chunk :
    unify_to_filters known.lists no_splits (some (record wanted { chunks = some (t "11,1") }) ∷ [])
    ≡ ok (record wanted { chunks = some (t "11") })
unfolding program
lost_chunk = refl

-- An integer has no `lower`.
integer_step :
    unify_to_filters known.lists no_splits
      (some (record wanted { from_step = some (int (pos 2)) }) ∷ [])
    ≡ err attribute_error
unfolding program
integer_step = refl

fc1-IsName : IsName (t "fc1")
fc1-IsName = ((λ e. absurd (cc)), omega arith)

fc2-IsName : IsName (t "fc2")
fc2-IsName = ((λ e. absurd (cc)), omega arith)

abbrev fc_values : List Value
fc_values = names ("fc1" ∷ ("fc2" ∷ ("fc3" ∷ [])))

parse_filter_to_check-written_example :
    (parse_filter_to_check (t "[fc1:fc2]") fc_values members_from no_splits
      ≡ ok (names ("fc1" ∷ ("fc2" ∷ []))))
    × (parse_filter_to_check (t "[:fc2]") fc_values members_from no_splits
        ≡ ok (names ("fc1" ∷ ("fc2" ∷ []))))
    × (parse_filter_to_check (t "[fc1:]") fc_values members_from no_splits ≡ ok fc_values)
unfolding last_value
parse_filter_to_check-written_example =
    parse_filter_to_check-written members_from no_splits (text (t "fc1"))
      (names ("fc2" ∷ ("fc3" ∷ []))) (t "fc1") (t "fc2") 0 1 (refl, refl, refl) fc1-IsName
      fc2-IsName found_1 found_2 found_3
  where
    found_1 : index_of fc_values (text (t "fc1")) ≡ ok 0
    found_1 = unfold index_of value_eq in refl

    found_2 : index_of fc_values (text (t "fc2")) ≡ ok 1
    found_2 = unfold index_of value_eq in refl

    found_3 : index_of fc_values (text (t "fc3")) ≡ ok 2
    found_3 = unfold index_of value_eq in refl

-- Members 1 and 2 of three are selected where only member 1 is asked for.
parse_filters_to_check-unknown_example :
    parse_filters_to_check (t "[fc1:fc1]") fc_values members_from
    ≡ ok (names ("fc1" ∷ ("fc2" ∷ [])))
parse_filters_to_check-unknown_example =
    parse_filters_to_check-unknown members_from (text (t "fc1")) (names ("fc2" ∷ ("fc3" ∷ [])))
      (t "fc1") (t "fc1") (refl, refl, refl) fc1-IsName fc1-IsName (omega arith) (omega arith)
      absent_fc
  where
    absent_fc : index_of fc_values (text (upper (t "fc1"))) ≡ err value_error
    absent_fc = unfold index_of value_eq upper in refl
