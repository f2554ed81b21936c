-- ===== src/LoadBalancer.antt =====
-- internal/loadbalancer/*.go: the strategies behind `LoadBalancer` and their factory.
-- `&workers[i]` is the element itself. A job count is an int64 pattern, and -1 is the sentinel of
-- the scans. `rng.Intn` is an argument of `select_worker`.
pub mod Selection
pub mod Outcomes
pub mod Rotation
use distributed_job_processo.Base.{
  ℕ, suc, ◌-◌, ◌%◌, ◌^◌, ◌<◌, String, ◌≡◌, Bool, true, false, not, ◌&&◌, ◌||◌, Option, none, some,
  List, [], ◌∷◌, arith, str_eq, ◌==◌, if◌then◌else◌, length, get_elem?, filter, minus_one, slt, inc,
  negate,
}
use distributed_job_processo.Job.{Job, priority_low, priority_normal, priority_high}

-- `WorkerStats` of internal/worker/pool.go
pub record WorkerStats : Type 0 where
  pub id : String
  pub node_id : String
  pub is_active : Bool
  pub job_count : ℕ

-- What `SelectWorker` does: return nil, return a worker, or panic on an index out of range.
pub data Pick : Type 0 where
  nothing : Pick
  picked : WorkerStats → Pick
  panics : Pick

abbrev pub of_option : Option WorkerStats → Pick
of_option none = nothing
of_option (some w) = picked w

abbrev pub idle : List WorkerStats → List WorkerStats
idle = filter (λ w. not w.is_active)

-- The locals of a scan: the worker selected so far and its load, -1 before there is one.
pub record Scan : Type 0 where
  pub selected : Option WorkerStats
  pub load : ℕ

abbrev pub start : Scan
start = record { selected = none; load = minus_one }

abbrev pub take_if : Bool → WorkerStats → Scan → Scan
take_if true w s = record { selected = some w; load = w.job_count }
take_if false w s = s

-- A loop over the workers that takes each one for which the test holds.
unfoldable pub scan : (WorkerStats → ℕ → Bool) → List WorkerStats → Scan → Scan
scan test [] s = s
scan test (w ∷ ws) s = scan test ws (take_if (test w s.load) w s)

abbrev pub lighter : WorkerStats → ℕ → Bool
lighter w load = load == minus_one || slt w.job_count load

abbrev pub idle_and_lighter : WorkerStats → ℕ → Bool
idle_and_lighter w load = not w.is_active && lighter w load

abbrev pub heavier : WorkerStats → ℕ → Bool
heavier w load = slt load w.job_count

unfoldable pub least_loaded_select : List WorkerStats → Pick
unfolding scan
least_loaded_select [] = nothing
least_loaded_select workers = of_option (scan idle_and_lighter workers start).selected

unfoldable pub select_by_least_load : List WorkerStats → Option WorkerStats
unfolding scan
select_by_least_load workers = (scan lighter workers start).selected

unfoldable pub select_round_robin : List WorkerStats → Option WorkerStats
select_round_robin workers = get_elem? workers 0

unfoldable pub select_by_most_load : List WorkerStats → Option WorkerStats
unfolding scan
select_by_most_load workers = (scan heavier workers start).selected

unfoldable pub select_by_priority : ℕ → List WorkerStats → Option WorkerStats
unfolding select_by_least_load select_round_robin select_by_most_load
select_by_priority priority workers =
    if priority == priority_high
    then select_by_least_load workers
    else if priority == priority_normal
    then select_round_robin workers
    else if priority == priority_low
    then select_by_most_load workers
    else select_by_least_load workers

-- `if len(availableWorkers) == 0 { return nil }`; an empty list of workers has no idle one.
abbrev pub when_any : (List WorkerStats → Pick) → List WorkerStats → Pick
when_any choose [] = nothing
when_any choose (w ∷ ws) = choose (w ∷ ws)

unfoldable pub priority_select : List WorkerStats → Job → Pick
unfolding select_by_priority
priority_select workers j =
    when_any (λ ws. of_option (select_by_priority j.priority ws)) (idle workers)

abbrev pub or_panic : Option WorkerStats → Pick
or_panic none = panics
or_panic (some w) = picked w

unfoldable pub random_select : (ℕ → ℕ) → List WorkerStats → Pick
random_select intn workers =
    when_any (λ ws. or_panic (get_elem? ws (intn (length ws)))) (idle workers)

-- `current % n` for an int: a negative dividend gives a remainder that is negative or 0, and a
-- negative index panics.
abbrev pub remainder_index : ℕ → ℕ → Option ℕ
remainder_index current n =
    if slt current 0 then (if negate current % n == 0 then some 0 else none) else some (current % n)

-- The receiver's `current` is incremented after the element is taken, so a panic leaves it.
abbrev pub take_turn : ℕ → List WorkerStats → Option ℕ → Pick × ℕ
take_turn current workers none = (panics, current)
take_turn current workers (some i) = (or_panic (get_elem? workers i), inc current)

abbrev pub turn : ℕ → List WorkerStats → Pick × ℕ
turn current [] = (nothing, current)
turn current (w ∷ ws) = take_turn current (w ∷ ws) (remainder_index current (length (w ∷ ws)))

unfoldable pub round_robin_select : ℕ → List WorkerStats → Pick × ℕ
round_robin_select current workers = turn current (idle workers)

-- A counter that has not wrapped gives its remainder.
pub remainder_index-eq :
    (current n : ℕ) → current < 2 ^ 63 → remainder_index current (suc n) ≡ some (current % suc n)
remainder_index-eq current n h = ground arith

-- The types that implement `LoadBalancer`, with their state.
pub data Balancer : Type 0 where
  round_robin : (current : ℕ) → Balancer
  least_loaded : Balancer
  random : Balancer
  priority : Balancer

unfoldable pub create : String → Balancer
create strategy =
    if str_eq strategy "round_robin"
    then round_robin 0
    else if str_eq strategy "least_loaded"
    then least_loaded
    else if str_eq strategy "random"
    then random
    else if str_eq strategy "priority"
    then priority
    else round_robin 0

unfoldable pub get_strategy : Balancer → String
get_strategy (round_robin _) = "round_robin"
get_strategy least_loaded = "least_loaded"
get_strategy random = "random"
get_strategy priority = "priority"

abbrev after_round_robin : Pick × ℕ → Pick × Balancer
after_round_robin (p, current) = (p, round_robin current)

unfoldable pub select_worker : (ℕ → ℕ) → Balancer → List WorkerStats → Job → Pick × Balancer
unfolding round_robin_select least_loaded_select random_select priority_select
select_worker intn (round_robin current) workers j =
    after_round_robin (round_robin_select current workers)
select_worker intn least_loaded workers j = (least_loaded_select workers, least_loaded)
select_worker intn random workers j = (random_select intn workers, random)
select_worker intn priority workers j = (priority_select workers j, priority)
