-- ===== src/Programs/Exit.antt =====
-- How the process of cmd/server/main.go ends: `main` waits for a signal and calls `Shutdown`,
-- while another goroutine runs `Start` and calls `log.Fatal` on its error.
use distributed_job_processo.Base.{
  ℕ, String, ◌≡◌, refl, sym, ap, ◌∙◌, Bool, true, List, [], ◌∷◌, ◌++◌, arith, Member,
}
use mathlib.Core.List.{append-nil, append_assoc}
use distributed_job_processo.Config.{Environment, Parsers, load}
use distributed_job_processo.Retry.{Floats}
use distributed_job_processo.Server.{Start, started, no_database, no_election, panicked, new}
use distributed_job_processo.Server.Ending.{
  Part, http_server, worker_pool, election, queue, storage, shutdown,
}

-- The process: the parts that `Shutdown` has stopped and those that it has still to stop, or an
-- exit code with the parts that were stopped.
pub data Process : Type 0 where
  running : (done rest : List Part) → Process
  exited : (code : ℕ) (done : List Part) → Process

-- `main` after `New`: `log.Fatal` ends the process with 1, a panic with 2; after the signal
-- `Shutdown` begins. `stops`: the election's `Stop` returns.
abbrev pub begun : {F : Type 0} → Start F → (stops : Bool) → Process
begun (started s) stops = running [] (shutdown true stops)
begun no_database stops = exited 1 []
begun no_election stops = exited 1 []
begun panicked stops = exited 2 []

unfoldable pub main :
    {F : Type 0}
    → Floats F
    → (worker_id : String → ℕ → String) → Parsers F
    → Environment
    → (connected stops : Bool) → Process
unfolding new load shutdown
main floats worker_id parsers env connected stops =
    begun (new floats worker_id connected (load parsers env)) stops

-- The two goroutines after the signal. `Shutdown` of http.Server closes the listeners first, on
-- which `ListenAndServe` returns an error at once, documented as never nil.
pub data Step (stops : Bool) : Process → Process → Type 0 where
  stop :
      (p : Part) (done rest : List Part)
      → Step stops (running done (p ∷ rest)) (running (done ++ p ∷ []) rest)
  -- The last part has stopped and `main` returns; it never does when the election blocks.
  finish : (done : List Part) → stops ≡ true → Step stops (running done []) (exited 0 done)
  -- `Start` has returned, and its goroutine calls `log.Fatal`.
  fatal_closing :
      (done rest : List Part) → Step stops (running done (http_server ∷ rest)) (exited 1 done)
  fatal_closed :
      (done rest : List Part)
      → Member http_server done
      → Step stops (running done rest) (exited 1 done)

pub data Reaches (stops : Bool) (s : Process) : Process → Type 0 where
  here : Reaches stops s s
  next : {t u : Process} → Reaches stops s t → Step stops t u → Reaches stops s u

abbrev all_parts : List Part
all_parts = http_server ∷ worker_pool ∷ election ∷ queue ∷ storage ∷ []

-- What may have been stopped, and what is stopped when the exit code is 0
abbrev Within : Bool → Process → Type 0
Within stops (running done rest) = done ++ rest ≡ shutdown true stops
Within stops (exited code done) = code ≡ 0 → done ≡ all_parts

Step-Within : {stops : Bool} {s t : Process} → Step stops s t → Within stops s → Within stops t
unfolding shutdown
Step-Within (stop p done rest) h = append_assoc done (p ∷ []) rest ∙ h
Step-Within {stops} (finish done on_stop) h =
    λ e. sym (append-nil done) ∙ h ∙ ap (shutdown true) on_stop
Step-Within (fatal_closing done rest) h = λ e. absurd (omega arith)
Step-Within (fatal_closed done rest closed) h = λ e. absurd (omega arith)

Reaches-Within :
    {stops : Bool} {s t : Process} → Reaches stops s t → Within stops s → Within stops t
Reaches-Within here h = h
Reaches-Within (next r st) h = Step-Within st (Reaches-Within r h)

module _ {F : Type 0} (floats : Floats F) (worker_id : String → ℕ → String) (parsers : Parsers F)
    (env : Environment) (connected stops : Bool) where
  main-Within : Within stops (main floats worker_id parsers env connected stops)
  unfolding main
  main-Within = by_start (new floats worker_id connected (load parsers env))
    where
      by_start : (s : Start F) → Within stops (begun s stops)
      by_start (started s) = refl
      by_start no_database = λ e. absurd (omega arith)
      by_start no_election = λ e. absurd (omega arith)
      by_start panicked = λ e. absurd (omega arith)

  -- Whenever the process ends with the exit code 0, all five parts have stopped, in the order of
  -- `Shutdown`.
  pub exit_zero :
      (done : List Part)
      → Reaches stops (main floats worker_id parsers env connected stops) (exited 0 done)
      → done ≡ all_parts
  exit_zero done r = Reaches-Within r main-Within refl
