-- ===== src/Server/Ending.antt =====
-- `Start` and `Shutdown` of internal/server/server.go: what is started and stopped, in which
-- order.
use distributed_job_processo.Base.{
  String, ◌≡◌, refl, ap, ◌∙◌, Bool, true, false, Option, none, some, List, [], ◌∷◌, if◌then◌else◌,
}
use distributed_job_processo.Config.{Config}
use distributed_job_processo.Election.Raft.State.{
  free, Raft, Outside, Outcome, returns, blocks, is_leader_state, Mutex,
}
use distributed_job_processo.Election.Raft.Rounds.{stop}
use distributed_job_processo.Election.Raft.Locking.{ending, stop_blocks}

pub data Action : Type 0 where
  serve_metrics : (port : String) → Action
  start_election start_pool set_up_http add_callback listen : Action
  listen_tls : (cert_file key_file : String) → Action

-- `Start`; the last action returns when the server ends.
unfoldable pub start : {F : Type 0} → Config F → List Action
start config =
    let serving =
      start_election
      ∷ start_pool
      ∷ set_up_http
      ∷ add_callback
      ∷ (if config.security.tls_enabled
          then listen_tls config.security.cert_file config.security.key_file
          else listen)
      ∷ [] in
    if config.metrics.enabled then serve_metrics config.metrics.port ∷ serving else serving

pub data Part : Type 0 where
  http_server worker_pool election queue storage : Part

-- `Shutdown`: the parts that have stopped, in order. `serving`: there is an HTTP server;
-- `stops`: the election's `Stop` returns.
unfoldable pub shutdown : (serving stops : Bool) → List Part
shutdown serving stops =
    let stopped = worker_pool ∷ (if stops then election ∷ queue ∷ storage ∷ [] else []) in
    if serving then http_server ∷ stopped else stopped

abbrev pub returned : {A : Type 0} → Outcome A → Bool
returned (returns a r) = true
returned blocks = false

-- A Raft leader that is shut down waits for ever in `Stop` of its election and closes neither
-- the queue nor the storage; a node that does not lead stops every part.
pub shutdown-raft :
    (outside : Outside) (r : Raft) (serving : Bool)
    → r.mu ≡ free
    → shutdown serving (returned (stop outside r))
      ≡ (if is_leader_state r.state then shutdown serving false else shutdown serving true)
shutdown-raft outside r serving is_free =
    ap (shutdown serving)
      (returned_ending (stop outside r) ∙ ap released (stop_blocks outside r is_free))
    ∙ by_state (is_leader_state r.state)
  where
    released : Option Mutex → Bool
    released none = false
    released (some m) = true

    returned_ending : (o : Outcome (Unit {0})) → returned o ≡ released (ending o)
    returned_ending (returns a r) = refl
    returned_ending blocks = refl

    by_state :
        (b : Bool)
        → shutdown serving (released (if b then none else some free))
          ≡ (if b then shutdown serving false else shutdown serving true)
    by_state true = refl
    by_state false = refl
