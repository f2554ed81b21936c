-- ===== src/LoadBalancer/Selection.antt =====
-- The scans of internal/loadbalancer/least_loaded.go and priority.go.
use distributed_job_processo.Base.{
  ℕ, zero, suc, ◌^◌, ◌≤◌, ◌<◌, ◌≡◌, refl, ap, inl, inr, Bool, true, false, Option, none, some, List,
  [], ◌∷◌, arith, ◌==◌, if◌then◌else◌, Bool-cases, length, get_elem?, Member, All, minus_one,
}
use distributed_job_processo.Job.{Job, priority_low, priority_normal}
use distributed_job_processo.LoadBalancer.{
  when_any, WorkerStats, of_option, idle, Scan, start, take_if, scan, lighter, idle_and_lighter,
  heavier, least_loaded_select, select_by_priority, priority_select,
}

-- A count that has not wrapped.
abbrev pub Fits : WorkerStats → Type 0
Fits w = w.job_count < 2 ^ 63

abbrev pub IdleMember : WorkerStats → List WorkerStats → Type 0
IdleMember w ws = Member w ws × (w.is_active ≡ false)

pub Member-idle : (w : WorkerStats) (ws : List WorkerStats) → Member w (idle ws) → IdleMember w ws
Member-idle w [] m = absurd m
Member-idle w (v ∷ ws) m = ground (arith, Member-idle w ws)

All-idle : (ws : List WorkerStats) → All Fits ws → All Fits (idle ws)
All-idle [] h = tt
All-idle (v ∷ ws) h = ground (arith, All-idle ws h.1)

-- The scan that skips busy workers is the scan of the idle ones.
scan-idle :
    (ws : List WorkerStats) (s : Scan) → scan idle_and_lighter ws s ≡ scan lighter (idle ws) s
unfolding scan
scan-idle [] s = refl
scan-idle (w ∷ ws) s = elim (Bool-cases w.is_active) [
  | inl busy ↦ simp busy (scan-idle ws s)
  | inr free ↦ simp free (scan-idle ws (take_if (lighter w s.load) w s))
]

pub get_elem?-Member :
    (ws : List WorkerStats) (i : ℕ)
    → i < length ws
    → (w : WorkerStats) × (get_elem? ws i ≡ some w) × Member w ws
get_elem?-Member [] i h = absurd (omega arith)
get_elem?-Member (w ∷ ws) zero h = (w, refl, inl refl)
get_elem?-Member (w ∷ ws) (suc i) h =
    let (v, e, m) = get_elem?-Member ws i (omega arith) in (v, e, inr m)

abbrev holding : WorkerStats → Scan
holding v = record { selected = some v; load = v.job_count }

-- A scan whose test takes the better of two loads ends with the best worker that it has met.
module _ (test : WorkerStats → ℕ → Bool) (R : ℕ → ℕ → Type 0) (R-refl : (a : ℕ) → R a a)
    (R-trans : (a b c : ℕ) → R a b → R b c → R a c)
    (takes : (u v : WorkerStats)
      → Fits u
      → Fits v
      → test u v.job_count ≡ true
      → R u.job_count v.job_count)
    (keeps : (u v : WorkerStats)
      → Fits u
      → Fits v
      → test u v.job_count ≡ false
      → R v.job_count u.job_count) where
  abbrev Best : WorkerStats → List WorkerStats → Type 0
  Best w ws = Member w ws × All (λ u. R w.job_count u.job_count) ws

  scan_from :
      (ws : List WorkerStats) (v : WorkerStats)
      → Fits v
      → All Fits ws
      → (w : WorkerStats) × ((scan test ws (holding v)).selected ≡ some w) × Best w (v ∷ ws)
  unfolding scan
  scan_from [] v f h = (v, refl, (inl refl, (R-refl v.job_count, tt)))
  scan_from (u ∷ us) v f h = elim (Bool-cases (test u v.job_count)) [
    | inl t ↦
        let (w, e, (m, (r, all))) = scan_from us u h.0 h.1 in
        (w, rw (t, scan) e, (inr m, (R-trans _ _ _ r (takes u v h.0 f t), (r, all))))
    | inr t ↦
        let (w, e, (m, (r, all))) = scan_from us v f h.1 in
        (w, rw (t, scan) e, (skip w m, (r, (R-trans _ _ _ r (keeps u v h.0 f t), all))))
  ]
    where
      skip : (w : WorkerStats) → Member w (v ∷ us) → Member w (v ∷ u ∷ us)
      skip w (inl e) = inl e
      skip w (inr m) = inr (inr m)

-- The result of a scan for the least load over workers that are all idle.
abbrev pub Least : List WorkerStats → Option WorkerStats → Type 0
Least ws none = ws ≡ []
Least ws (some w) = Member w ws × All (λ v. w.job_count ≤ v.job_count) ws

abbrev pub Most : List WorkerStats → Option WorkerStats → Type 0
Most ws none = ws ≡ []
Most ws (some w) = Member w ws × All (λ v. v.job_count ≤ w.job_count) ws

scan-lighter : (ws : List WorkerStats) → All Fits ws → Least ws (scan lighter ws start).selected
unfolding scan
scan-lighter [] h = refl
scan-lighter (v ∷ ws) h =
    let (w, e, b) =
      scan_from lighter (λ a b. a ≤ b) (λ a. omega arith) (λ a b c p q. omega arith)
        (λ u x p q t. ground arith) (λ u x p q t. ground arith) ws v h.0 h.1 in
    rw e b

heavier_first : (v : WorkerStats) → Fits v → heavier v minus_one ≡ true
heavier_first v h = ground arith

scan-heavier : (ws : List WorkerStats) → All Fits ws → Most ws (scan heavier ws start).selected
unfolding scan
scan-heavier [] h = refl
scan-heavier (v ∷ ws) h =
    let (w, e, b) =
      scan_from heavier (λ a b. b ≤ a) (λ a. omega arith) (λ a b c p q. omega arith)
        (λ u x p q t. ground arith) (λ u x p q t. ground arith) ws v h.0 h.1 in
    rw (first, e) b
  where
    first : scan heavier (v ∷ ws) start ≡ scan heavier ws (holding v)
    first = ap (λ t. scan heavier ws (take_if t v start)) (heavier_first v h.0)

-- The least-loaded strategy returns an idle worker with the fewest jobs among the idle ones, and
-- nil if none is idle, as long as no count has wrapped.
pub least_loaded_select-Least :
    (ws : List WorkerStats)
    → All Fits ws
    → (o : Option WorkerStats) × (least_loaded_select ws ≡ of_option o) × Least (idle ws) o
unfolding least_loaded_select
least_loaded_select-Least [] h = (none, refl, refl)
least_loaded_select-Least (v ∷ vs) h =
    let ws = v ∷ vs in
    (
      (scan lighter (idle ws) start).selected,
      ap (λ s. of_option s.selected) (scan-idle ws start),
      scan-lighter (idle ws) (All-idle ws h),
    )

-- What the priority strategy promises for a job's priority.
abbrev pub ByPriority : ℕ → List WorkerStats → Option WorkerStats → Type 0
ByPriority p ws o =
    if p == priority_normal
    then o ≡ get_elem? ws 0
    else if p == priority_low
    then Most ws o
    else Least ws o

select_by_priority-ByPriority :
    (p : ℕ) (ws : List WorkerStats) → All Fits ws → ByPriority p ws (select_by_priority p ws)
unfolding select_by_priority scan
select_by_priority-ByPriority p ws h = ground (arith, scan-lighter ws h, scan-heavier ws h)

when_any-priority :
    (p : ℕ) (is : List WorkerStats)
    → when_any (λ ws. of_option (select_by_priority p ws)) is ≡ of_option (select_by_priority p is)
unfolding select_by_priority scan
when_any-priority p [] = ground arith
when_any-priority p (w ∷ is) = refl

-- For a job of low priority the priority strategy returns an idle worker with the most jobs, for
-- normal priority the first idle worker, and for any other an idle worker with the fewest; it
-- returns nil if none is idle. No count has wrapped.
pub priority_select-ByPriority :
    (ws : List WorkerStats) (j : Job)
    → All Fits ws
    → (o : Option WorkerStats) × (priority_select ws j ≡ of_option o)
      × ByPriority j.priority (idle ws) o
unfolding priority_select
priority_select-ByPriority ws j h = (
  select_by_priority j.priority (idle ws),
  when_any-priority j.priority (idle ws),
  select_by_priority-ByPriority j.priority (idle ws) (All-idle ws h),
)
