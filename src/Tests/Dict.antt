-- ===== src/Tests/Dict.antt =====
-- The theorems on the jobs of a section at work.
use autosubmit.Prelude.{
  nat_eq, list_eq, ℕ, ◌≡◌, refl, false, none, some, [], ◌∷◌, Result, ok, err, zero_division, ◌>>=◌,
  arith,
}
use autosubmit.Prelude.Int.{ℤ, pos, negsuc}
use autosubmit.JobDict.Names.{DicJobs, Section, str, create_jobs_split}
use autosubmit.JobDict.Create.{fixed, create_jobs_chunk, create_jobs_once, read_section}
use autosubmit.JobDict.Get.{get_jobs}
use autosubmit.JobDict.Refines.{wanted}
use autosubmit.JobDict.Chunks.{chunks_created, shared_place}
use autosubmit.JobDict.Synchronize.{get_jobs-create_jobs_chunk}
use autosubmit.JobDict.Zero.{without_frequency, read_section-zero_frequency}

-- Two dates, two members and three chunks.
abbrev dic : DicJobs
dic = record {
  expid = b'a' ∷ b'0' ∷ [];
  date_list = 2000 ∷ 2001 ∷ [];
  member_list = (b'x' ∷ []) ∷ (b'y' ∷ []) ∷ [];
  chunk_list = 1 ∷ 2 ∷ 3 ∷ [];
  date2str = λ d. str d;
  loaded_names = λ t. false;
}

abbrev sim : Section
sim = record { name = b'S' ∷ []; priority = pos 0; job_type = "bash" }

abbrev no_calendar : ℕ → ℕ → Result ℤ
no_calendar d c = ok (pos 0)

get_jobs-create_jobs_chunk_example :
    (create_jobs_chunk dic sim no_calendar 2 "member" (negsuc 0) (fixed (pos 2)) >>= λ entry.
    ok (get_jobs dic (some entry) (some 2001) none (some 3)))
    ≡ ok (
        wanted dic
          (chunks_created dic 2 (negsuc 0))
          (λ d m c. create_jobs_split dic sim (pos 2) (shared_place "member" d m c))
          (some 2001)
          none
          (some 3))
get_jobs-create_jobs_chunk_example =
    get_jobs-create_jobs_chunk dic sim (pos 2) no_calendar 2 (negsuc 0) (omega arith) "member"
      (some 2001) none (some 3)

read_section-zero_frequency_example :
    (read_section dic sim no_calendar (without_frequency (pos 2) "" "date") ≡ err zero_division)
    × (read_section dic sim no_calendar (without_frequency (pos 2) "" "member") ≡ err zero_division)
    × (read_section dic sim no_calendar (without_frequency (pos 2) "" "chunk") ≡ err zero_division)
    × (read_section dic sim no_calendar (without_frequency (pos 2) "" "once")
        ≡ ok (some (create_jobs_once dic sim (pos 2))))
read_section-zero_frequency_example =
    read_section-zero_frequency dic sim 2000 (2001 ∷ []) (b'x' ∷ []) ((b'y' ∷ []) ∷ []) 1
      (2 ∷ 3 ∷ []) refl refl refl no_calendar (pos 2) ""
