-- ===== src/Examples/Listing.antt =====
-- Queries of a collection with two jobs.
use distributed_job_processo.Base.{
  ◌≤◌, String, ◌≡◌, refl, sym, subst, inl, inr, Bool, true, false, none, some, List, [], ◌∷◌, arith,
  str_eq, eq_iff, if◌then◌else◌, Bool-cases, length, filter, Member, All, wrap, slt, some-eq,
}
use distributed_job_processo.Base.{some-eq}
use mathlib.Core.List.Permᴰ
use distributed_job_processo.Job.{
  Job, status_pending, status_running, status_completed, status_failed, status_retrying,
}
use distributed_job_processo.Storage.Listing.{
  JobFilter, page, Queries, Finds, NewestFirst, get_jobs,
}
use distributed_job_processo.Storage.Listing.Answers.{Wanted, get_jobs-Lists, get_jobs_complete}
use distributed_job_processo.Storage.Statistics.{
  JobStats, Groups, DistinctGroups, GroupsByStatus, count_at, count_status, get_job_stats,
  get_job_stats-counts,
}
use distributed_job_processo.Examples.Queueing.{job}

abbrev newer : Job
newer = record (job 2) { created_at = 5; status = "failed" }

abbrev two_jobs : Unit {0} → List Job
two_jobs m = newer ∷ job 1 ∷ []

abbrev sorted : Queries (Unit {0})
sorted = record { find = λ test o m. some (page o (filter test (two_jobs m))) }

newest : (test : Job → Bool) → NewestFirst (filter test (two_jobs tt))
newest test = by_tests (test newer) (test (job 1))
  where
    by_tests :
        (a b : Bool)
        → let rest = if b then job 1 ∷ [] else [] in NewestFirst (if a then newer ∷ rest else rest)
    by_tests true true = ((omega arith, tt), (tt, tt))
    by_tests true false = (tt, tt)
    by_tests false true = (tt, tt)
    by_tests false false = tt

sorted-Finds : Finds sorted two_jobs
sorted-Finds = record {
  find_effect =
      λ test o m l n e. (filter test (two_jobs m), Permᴰ.refl _, newest test, sym (some-eq _ l e));
}

abbrev all_jobs : JobFilter
all_jobs = record {
  status = [];
  type = "email";
  worker_id = "";
  created_after = some 1;
  created_before = none;
  limit = 0;
  offset = 0;
}

get_jobs-Lists_example :
    All (λ j. Wanted all_jobs j × Member j (two_jobs tt)) (two_jobs tt)
    × NewestFirst (two_jobs tt)
    × (length (two_jobs tt)
        ≤ (if slt 0 all_jobs.limit then all_jobs.limit else length (two_jobs tt)))
unfolding get_jobs
get_jobs-Lists_example = get_jobs-Lists sorted two_jobs sorted-Finds all_jobs tt (two_jobs tt) refl

get_jobs_complete_example : Member newer (two_jobs tt)
unfolding get_jobs
get_jobs_complete_example =
    get_jobs_complete sorted two_jobs sorted-Finds all_jobs tt (two_jobs tt) refl refl refl newer
      (inl refl) (inl refl, inr refl, inl refl, λ t e. ground arith, λ t e. absurd (ground arith))

abbrev grouped : Groups (Unit {0})
grouped = record { group_by_status = λ m. some (("pending", 1) ∷ ("failed", 1) ∷ []) }

counted :
    (s : String) → count_at s (("pending", 1) ∷ ("failed", 1) ∷ []) ≡ count_status s (two_jobs tt)
counted s = elim (Bool-cases (str_eq "pending" s)) [
  | inl e ↦
      subst (λ t. count_at t (("pending", 1) ∷ ("failed", 1) ∷ []) ≡ count_status t (two_jobs tt))
        ((eq_iff "pending" s).0 e) refl
  | inr e ↦ rw e (ground arith)
]

grouped-GroupsByStatus : GroupsByStatus grouped two_jobs
grouped-GroupsByStatus = record {
  group_effect = λ m gs e.
      subst (λ gs. DistinctGroups gs × ((s : String) → count_at s gs ≡ count_status s (two_jobs m)))
        (some-eq _ gs e) ((refl, (refl, tt)), counted);
}

abbrev two_stats : JobStats
two_stats = record { total = 2; pending = 1; running = 0; completed = 0; failed = 1; retrying = 0 }

get_job_stats-counts_example : two_stats ≡ record {
  total = wrap (length (two_jobs tt));
  pending = count_status status_pending (two_jobs tt);
  running = count_status status_running (two_jobs tt);
  completed = count_status status_completed (two_jobs tt);
  failed = count_status status_failed (two_jobs tt);
  retrying = count_status status_retrying (two_jobs tt);
}
unfolding get_job_stats
get_job_stats-counts_example =
    get_job_stats-counts grouped two_jobs grouped-GroupsByStatus tt two_stats refl
