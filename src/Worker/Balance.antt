-- ===== src/Worker/Balance.antt =====
-- `GetLeastLoadedWorker` of internal/worker/pool.go beside the least-loaded strategy.
use distributed_job_processo.Base.{
  ℕ, ◌≡◌, refl, ap, ◌∙◌, Bool, true, false, Option, none, some, List, [], ◌∷◌, map, if◌then◌else◌,
  minus_one,
}
use distributed_job_processo.LoadBalancer.{
  of_option, Scan, take_if, scan, idle_and_lighter, least_loaded_select,
}
use distributed_job_processo.Worker.Pool.{
  Worker, stats_of, get_worker_stats, least_loop, least_step, get_least_loaded_worker,
}
use mathlib.Core.Option

abbrev as_scan : Option Worker × ℕ → Scan
as_scan p = record { selected = Option.map stats_of p.0; load = p.1 }

choose :
    (b : Bool) (w : Worker) (p : Option Worker × ℕ)
    → as_scan (if b then (some w, w.job_count) else p) ≡ take_if b (stats_of w) (as_scan p)
choose true w p = refl
choose false w p = refl

least_loop-scan :
    (ws : List Worker) (p : Option Worker × ℕ)
    → as_scan (least_loop ws p) ≡ scan idle_and_lighter (map stats_of ws) (as_scan p)
unfolding least_loop scan
least_loop-scan [] p = refl
least_loop-scan (w ∷ ws) p =
    least_loop-scan ws (least_step w p)
    ∙ ap (scan idle_and_lighter (map stats_of ws)) (choose (idle_and_lighter (stats_of w) p.1) w p)

-- What the pool's `GetLeastLoadedWorker` returns is, as statistics, what the least-loaded
-- strategy returns on `GetWorkerStats`.
pub get_least_loaded_worker-eq-select :
    (ws : List Worker)
    → of_option (Option.map stats_of (get_least_loaded_worker ws))
      ≡ least_loaded_select (get_worker_stats ws)
unfolding get_least_loaded_worker least_loaded_select get_worker_stats scan
get_least_loaded_worker-eq-select [] = refl
get_least_loaded_worker-eq-select (w ∷ ws) =
    ap (λ s. of_option s.selected) (least_loop-scan (w ∷ ws) (none, minus_one))
