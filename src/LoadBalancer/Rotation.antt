-- ===== src/LoadBalancer/Rotation.antt =====
-- The turns of round robin: internal/loadbalancer/round_robin.go.
use distributed_job_processo.Base.{
  ℕ, zero, suc, ◌+◌, ◌-◌, ◌%◌, ◌^◌, ◌<◌, ◌≡◌, refl, sym, ap, ◌∙◌, subst, List, [], ◌∷◌, arith,
  length, get_elem?, inc,
}
use native.Mathlib.Nat.{mod-add-mod, add-mod-mod, add-mod_right, mod-eq_of_lt}
use distributed_job_processo.LoadBalancer.{
  WorkerStats, Pick, idle, or_panic, take_turn, turn, remainder_index-eq, round_robin_select,
}

-- What the i-th of a row of calls over the same workers returns, from a counter.
pub nth_pick : ℕ → ℕ → List WorkerStats → Pick
nth_pick zero current ws = (round_robin_select current ws).0
nth_pick (suc i) current ws = nth_pick i (round_robin_select current ws).1 ws

-- One call over idle workers.
turn-eq :
    (current : ℕ) (w : WorkerStats) (is : List WorkerStats)
    → current < 2 ^ 63
    → turn current (w ∷ is)
      ≡ (or_panic (get_elem? (w ∷ is) (current % length (w ∷ is))), inc current)
turn-eq current w is h = ap (take_turn current (w ∷ is)) (remainder_index-eq current (length is) h)

one_call :
    (current : ℕ) (ws : List WorkerStats) (w : WorkerStats) (is : List WorkerStats)
    → idle ws ≡ w ∷ is
    → current < 2 ^ 63
    → round_robin_select current ws
      ≡ (or_panic (get_elem? (w ∷ is) (current % length (w ∷ is))), inc current)
unfolding round_robin_select
one_call current ws w is e h = ap (turn current) e ∙ turn-eq current w is h

shift_zero : (current : ℕ) → current ≡ current + 0
shift_zero current = omega arith

shift : (current i : ℕ) → current + suc i < 2 ^ 63 → inc current + i ≡ current + suc i
shift current i h = omega arith

nth_pick_from :
    (i current : ℕ) (ws : List WorkerStats) (w : WorkerStats) (is : List WorkerStats)
    → idle ws ≡ w ∷ is
    → current + i < 2 ^ 63
    → nth_pick i current ws ≡ or_panic (get_elem? (w ∷ is) ((current + i) % length (w ∷ is)))
unfolding nth_pick
nth_pick_from zero current ws w is e h =
    ap (λ (r : Pick × ℕ). r.0) (one_call current ws w is e (omega arith))
    ∙ ap (λ n. or_panic (get_elem? (w ∷ is) (n % length (w ∷ is)))) (shift_zero current)
nth_pick_from (suc i) current ws w is e h =
    ap (λ (r : Pick × ℕ). nth_pick i r.1 ws) (one_call current ws w is e (omega arith))
    ∙ nth_pick_from i (inc current) ws w is e (omega arith)
    ∙ ap (λ (n : ℕ). or_panic (get_elem? (w ∷ is) (n % length (w ∷ is)))) (shift current i h)

-- The turn at which slot `j` of `k` comes up, from counter `c`.
abbrev pub turn_of : ℕ → ℕ → ℕ → ℕ
turn_of c j k = (j + k - c % k) % k

turn_of-lt : (c j k : ℕ) → 0 < k → turn_of c j k < k
turn_of-lt c j k h = grind arith

unshifted : (c j k : ℕ) → j < k → c % k + (j + k - c % k) ≡ j + k
unshifted c j k h = grind arith

turn_of-hits : (c j k : ℕ) → j < k → (c + turn_of c j k) % k ≡ j
turn_of-hits c j k h =
    sym (mod-add-mod c k (turn_of c j k))
    ∙ add-mod-mod (c % k) (j + k - c % k) k
    ∙ ap (λ n. n % k) (unshifted c j k h)
    ∙ add-mod_right j k
    ∙ mod-eq_of_lt h

-- Fairness: while the same workers are idle, every one of the k idle workers is returned by one
-- of any k calls in a row; the counter does not wrap during them.
pub round_robin_fair :
    (ws : List WorkerStats) (current j : ℕ)
    → j < length (idle ws)
    → current + length (idle ws) < 2 ^ 63
    → (i : ℕ) × (i < length (idle ws)) × (nth_pick i current ws ≡ or_panic (get_elem? (idle ws) j))
round_robin_fair ws current j h fits = from (idle ws) refl
  where
    from :
        (is : List WorkerStats)
        → idle ws ≡ is
        → (i : ℕ) × (i < length (idle ws))
          × (nth_pick i current ws ≡ or_panic (get_elem? (idle ws) j))
    from [] e = absurd (omega (arith, ap length e))
    from (w ∷ is) e =
        let k : ℕ = length (w ∷ is) in
        let i : ℕ = turn_of current j k in
        let below : j < k = subst (λ l. j < length l) e h in
        let soon : i < k = turn_of-lt current j k (omega arith) in
        let room : current + k < 2 ^ 63 = subst (λ l. current + length l < 2 ^ 63) e fits in
        (
          i,
          subst (λ l. i < length l) (sym e) soon,
          nth_pick_from i current ws w is e (omega arith)
              ∙ ap (λ n. or_panic (get_elem? (w ∷ is) n)) (turn_of-hits current j k below)
              ∙ ap (λ l. or_panic (get_elem? l j)) (sym e),
        )
