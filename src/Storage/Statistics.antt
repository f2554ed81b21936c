-- ===== src/Storage/Statistics.antt =====
-- `GetJobStats` of internal/storage/mongodb.go: the counts of an aggregation by status.
use distributed_job_processo.Base.{
  ℕ, ◌+◌, ◌^◌, ◌<◌, String, ◌≡◌, refl, sym, ap, ◌∙◌, subst, ◌⊎◌, inl, inr, Bool, true, false, not,
  ◌||◌, Option, none, some, List, [], ◌∷◌, arith, str_eq, eq_iff, if◌then◌else◌, Bool-cases,
  Option-cases, str_eq_self, length, filter, wrap, some-eq,
}
use distributed_job_processo.Job.{
  Job, status_pending, status_running, status_completed, status_failed, status_retrying,
}

-- `JobStats` of internal/storage/storage.go
pub record JobStats : Type 0 where
  pub total : ℕ
  pub pending : ℕ
  pub running : ℕ
  pub completed : ℕ
  pub failed : ℕ
  pub retrying : ℕ

-- Aggregate with `$group` on the status, and the reading of its cursor: `none` if one of them
-- fails.
pub record Groups (M : Type 0) : Type 0 where
  pub group_by_status : M → Option (List (String × ℕ))

-- `statusCounts[s]`, 0 if it is missing
abbrev pub count_at : String → List (String × ℕ) → ℕ
count_at s [] = 0
count_at s ((k, n) ∷ l) = let rest = count_at s l in if str_eq k s then n else rest

-- The loop over the cursor: `statusCounts`, the latest entry first, and `stats.Total`.
unfoldable pub add_groups : List (String × ℕ) → List (String × ℕ) × ℕ → List (String × ℕ) × ℕ
add_groups [] s = s
add_groups ((k, n) ∷ gs) (counts, total) = add_groups gs ((k, n) ∷ counts, wrap (total + n))

abbrev pub stats_from : List (String × ℕ) × ℕ → JobStats
stats_from (counts, total) = record {
  total = total;
  pending = count_at status_pending counts;
  running = count_at status_running counts;
  completed = count_at status_completed counts;
  failed = count_at status_failed counts;
  retrying = count_at status_retrying counts;
}

abbrev pub read_groups : Option (List (String × ℕ)) → Option JobStats
read_groups none = none
read_groups (some gs) = some (stats_from (add_groups gs ([], 0)))

unfoldable pub get_job_stats : {M : Type 0} → Groups M → M → Option JobStats
unfolding add_groups
get_job_stats groups m = read_groups (groups.group_by_status m)

-- How many jobs have the status.
abbrev pub count_status : String → List Job → ℕ
count_status s [] = 0
count_status s (j ∷ js) = (if str_eq j.status s then 1 else 0) + count_status s js

abbrev has_group : String → List (String × ℕ) → Bool
has_group s [] = false
has_group s ((k, n) ∷ gs) = str_eq k s || has_group s gs

abbrev pub DistinctGroups : List (String × ℕ) → Type 0
DistinctGroups [] = Unit
DistinctGroups ((k, n) ∷ gs) = (has_group k gs ≡ false) × DistinctGroups gs

-- The documented effect: one group for a status, with the number of its documents, and none for
-- a status that no document has.
pub record GroupsByStatus {M : Type 0} (groups : Groups M) (documents : M → List Job) : Type 0 where
  pub group_effect :
      (m : M) (gs : List (String × ℕ))
      → groups.group_by_status m ≡ some gs
      → DistinctGroups gs × ((s : String) → count_at s gs ≡ count_status s (documents m))

abbrev sum : List (String × ℕ) → ℕ
sum [] = 0
sum ((k, n) ∷ gs) = n + sum gs

add_groups-total :
    (gs counts : List (String × ℕ)) (t : ℕ)
    → t < 2 ^ 64
    → (add_groups gs (counts, t)).1 ≡ wrap (t + sum gs)
unfolding add_groups
add_groups-total [] counts t h = omega arith
add_groups-total ((k, n) ∷ gs) counts t h =
    add_groups-total gs ((k, n) ∷ counts) (wrap (t + n)) (omega arith) ∙ omega arith

no_group : (s : String) (gs : List (String × ℕ)) → has_group s gs ≡ false → count_at s gs ≡ 0
no_group s [] h = refl
no_group s ((k, n) ∷ gs) h = ground (arith, no_group s gs)

add_groups-counts :
    (gs counts : List (String × ℕ)) (t : ℕ) (s : String)
    → DistinctGroups gs
    → count_at s (add_groups gs (counts, t)).0
      ≡ (if has_group s gs then count_at s gs else count_at s counts)
unfolding add_groups
add_groups-counts [] counts t s d = refl
add_groups-counts ((k, n) ∷ gs) counts t s d =
    add_groups-counts gs ((k, n) ∷ counts) (wrap (t + n)) s d.1 ∙ first (Bool-cases (str_eq k s))
  where
    first :
        (str_eq k s ≡ true) ⊎ (str_eq k s ≡ false)
        → (if has_group s gs then count_at s gs else count_at s ((k, n) ∷ counts))
          ≡ (if has_group s ((k, n) ∷ gs) then count_at s ((k, n) ∷ gs) else count_at s counts)
    first (inl e) =
        let absent = subst (λ x. has_group x gs ≡ false) ((eq_iff k s).0 e) d.0 in ground arith
    first (inr e) = ground arith

add_groups-count_at :
    (gs : List (String × ℕ)) (s : String)
    → DistinctGroups gs
    → count_at s (add_groups gs ([], 0)).0 ≡ count_at s gs
add_groups-count_at gs s d = add_groups-counts gs [] 0 s d ∙ ground (arith, no_group s gs)

-- The jobs of another status.
abbrev others : String → List Job → List Job
others s = filter (λ j. not (str_eq j.status s))

length-others : (s : String) (js : List Job) → length js ≡ count_status s js + length (others s js)
length-others s [] = refl
length-others s (j ∷ js) = ground (arith, length-others s js)

count_status-others :
    (s t : String) (js : List Job)
    → str_eq s t ≡ false
    → count_status t (others s js) ≡ count_status t js
count_status-others s t [] h = refl
count_status-others s t (j ∷ js) h = elim (Bool-cases (str_eq j.status s)) [
  | inl e ↦
      let apart = subst (λ x. str_eq x t ≡ false) (sym ((eq_iff j.status s).0 e)) h in
      rw (e, apart) (count_status-others s t js h ∙ omega arith)
  | inr e ↦ rw e (ap (λ n. (if str_eq j.status t then 1 else 0) + n) (count_status-others s t js h))
]

count_status-others_self : (s : String) (js : List Job) → count_status s (others s js) ≡ 0
count_status-others_self s [] = refl
count_status-others_self s (j ∷ js) = ground (arith, count_status-others_self s js)

sum-length :
    (gs : List (String × ℕ)) (js : List Job)
    → DistinctGroups gs
    → ((s : String) → count_at s gs ≡ count_status s js)
    → sum gs ≡ length js
sum-length [] [] d h = refl
sum-length [] (j ∷ js) d h = absurd (ground (arith, h j.status, str_eq_self j.status))
sum-length ((k, n) ∷ gs) js d h =
    let here : n ≡ count_status k js =
      sym (ap (λ b. if b then n else count_at k gs) (str_eq_self k)) ∙ h k in
    let rest = sum-length gs (others k js) d.1 (λ t. remaining t (Bool-cases (str_eq k t))) in
    let split = length-others k js in omega arith
  where
    remaining :
        (t : String)
        → (str_eq k t ≡ true) ⊎ (str_eq k t ≡ false)
        → count_at t gs ≡ count_status t (others k js)
    remaining t (inl e) =
        subst (λ x. count_at x gs ≡ count_status x (others k js)) ((eq_iff k t).0 e)
          (no_group k gs d.0 ∙ sym (count_status-others_self k js))
    remaining t (inr e) =
        sym (ap (λ b. if b then n else count_at t gs) e) ∙ h t ∙ sym (count_status-others k t js e)

-- With the documented effect of the aggregation, what `GetJobStats` returns: the number of the
-- documents as an int64, and the numbers of those of each status.
pub get_job_stats-counts :
    {M : Type 0} (groups : Groups M) (documents : M → List Job)
    → GroupsByStatus groups documents
    → (m : M) (stats : JobStats) → get_job_stats groups m ≡ some stats
    → stats ≡ record {
      total = wrap (length (documents m));
      pending = count_status status_pending (documents m);
      running = count_status status_running (documents m);
      completed = count_status status_completed (documents m);
      failed = count_status status_failed (documents m);
      retrying = count_status status_retrying (documents m);
    }
unfolding get_job_stats
get_job_stats-counts groups documents effects m stats e =
    elim (Option-cases (groups.group_by_status m)) [
      | inl absent ↦ absurd (nothing (sym (ap read_groups absent) ∙ e))
      | inr (gs, present) ↦
          let (distinct, exact) = effects.group_effect m gs present in
          let at : (s : String)
              → count_at s (add_groups gs ([], 0)).0 ≡ count_status s (documents m) =
            λ s. add_groups-count_at gs s distinct ∙ exact s in
          let total : (add_groups gs ([], 0)).1 ≡ wrap (length (documents m)) =
            add_groups-total gs [] 0 (omega arith)
            ∙ ap (λ n. wrap (0 + n)) (sum-length gs (documents m) distinct exact)
            ∙ omega arith in
          some-eq stats _ (sym e ∙ ap read_groups present)
          ∙ cc (
            total,
            at status_pending,
            at status_running,
            at status_completed,
            at status_failed,
            at status_retrying,
          )
    ]
  where
    nothing : ◌≡◌ {A = Option JobStats} none (some stats) → ⊥
    nothing e = ground arith
