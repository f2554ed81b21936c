-- ===== src/LoadBalancer/Outcomes.antt =====
-- What the strategies of internal/loadbalancer may return.
use distributed_job_processo.Base.{
  ℕ, ◌%◌, ◌^◌, ◌<◌, ◌≡◌, refl, sym, subst, inl, inr, Option, none, some, List, [], ◌∷◌, arith, ◌==◌,
  Bool-cases, length, get_elem?, Member, All,
}
use distributed_job_processo.Job.{Job, priority_low, priority_normal}
use distributed_job_processo.LoadBalancer.{
  when_any, or_panic, turn, remainder_index-eq, WorkerStats, Pick, nothing, picked, panics,
  of_option, idle, random_select, round_robin_select, Balancer, round_robin, least_loaded, random,
  priority, select_worker,
}
use distributed_job_processo.LoadBalancer.Selection.{
  Fits, IdleMember, Member-idle, get_elem?-Member, Least, Most, least_loaded_select-Least,
  ByPriority, priority_select-ByPriority,
}

-- What `SelectWorker` promises: nil only if all workers are busy, an idle worker else, no panic.
abbrev pub Promise : List WorkerStats → Pick → Type 0
Promise ws nothing = idle ws ≡ []
Promise ws (picked w) = IdleMember w ws
Promise ws panics = ⊥

-- The rotation counter has not wrapped.
abbrev pub FitsTurn : Balancer → Type 0
FitsTurn (round_robin current) = current < 2 ^ 63
FitsTurn _ = Unit

option-Promise :
    (ws : List WorkerStats) (o : Option WorkerStats)
    → (o ≡ none → idle ws ≡ [])
    → ((w : WorkerStats) → o ≡ some w → Member w (idle ws))
    → Promise ws (of_option o)
option-Promise ws none empty found = empty refl
option-Promise ws (some w) empty found = Member-idle w ws (found w refl)

Least-Promise :
    (ws : List WorkerStats) (o : Option WorkerStats) → Least (idle ws) o → Promise ws (of_option o)
Least-Promise ws none h = h
Least-Promise ws (some w) h = Member-idle w ws h.0

Most-Promise :
    (ws : List WorkerStats) (o : Option WorkerStats) → Most (idle ws) o → Promise ws (of_option o)
Most-Promise ws none h = h
Most-Promise ws (some w) h = Member-idle w ws h.0

First-Promise : (ws is : List WorkerStats) → is ≡ idle ws → Promise ws (of_option (get_elem? is 0))
First-Promise ws [] e = sym e
First-Promise ws (w ∷ is) e = Member-idle w ws (subst (Member w) e (inl refl))

ByPriority-Promise :
    (ws : List WorkerStats) (p : ℕ) (o : Option WorkerStats)
    → ByPriority p (idle ws) o
    → Promise ws (of_option o)
ByPriority-Promise ws p o h = elim (Bool-cases (p == priority_normal)) [
  | inl n ↦
      subst (λ x. Promise ws (of_option x)) (sym (rw n at h)) (First-Promise ws (idle ws) refl)
  | inr n ↦ elim (Bool-cases (p == priority_low)) [
    | inl l ↦ Most-Promise ws o (rw (n, l) at h)
    | inr l ↦ Least-Promise ws o (rw (n, l) at h)
  ]
]

indexed-Promise :
    (ws is : List WorkerStats)
    → is ≡ idle ws
    → (i : ℕ) → i < length is
    → Promise ws (or_panic (get_elem? is i))
indexed-Promise ws is e i h =
    let (w, found, m) = get_elem?-Member is i h in
    subst (λ x. Promise ws (or_panic x)) (sym found) (Member-idle w ws (subst (Member w) e m))

random-Promise :
    (intn : ℕ → ℕ)
    → ((n : ℕ) → 0 < n → intn n < n)
    → (ws is : List WorkerStats) → is ≡ idle ws
    → Promise ws (when_any (λ l. or_panic (get_elem? l (intn (length l)))) is)
random-Promise intn below ws [] e = sym e
random-Promise intn below ws (w ∷ is) e =
    indexed-Promise ws (w ∷ is) e (intn (length (w ∷ is))) (below (length (w ∷ is)) (omega arith))

turn-Promise :
    (current : ℕ)
    → current < 2 ^ 63
    → (ws is : List WorkerStats) → is ≡ idle ws
    → Promise ws (turn current is).0
turn-Promise current h ws [] e = sym e
turn-Promise current h ws (w ∷ is) e =
    rw (remainder_index-eq current (length is) h)
      (indexed-Promise ws (w ∷ is) e (current % length (w ∷ is)) (grind arith))

-- Every strategy keeps the promise, whatever the job, if no counter has wrapped and `Intn` gives
-- a number below its argument.
pub select_worker-Promise :
    (intn : ℕ → ℕ)
    → ((n : ℕ) → 0 < n → intn n < n)
    → (b : Balancer) → FitsTurn b
    → (ws : List WorkerStats) → All Fits ws
    → (j : Job) → Promise ws (select_worker intn b ws j).0
unfolding select_worker round_robin_select random_select
select_worker-Promise intn below (round_robin current) f ws h j =
    turn-Promise current f ws (idle ws) refl
select_worker-Promise intn below least_loaded f ws h j =
    let (o, e, l) = least_loaded_select-Least ws h in
    subst (Promise ws) (sym e) (Least-Promise ws o l)
select_worker-Promise intn below random f ws h j = random-Promise intn below ws (idle ws) refl
select_worker-Promise intn below priority f ws h j =
    let (o, e, l) = priority_select-ByPriority ws j h in
    subst (Promise ws) (sym e) (ByPriority-Promise ws j.priority o l)
