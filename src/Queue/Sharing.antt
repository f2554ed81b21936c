-- ===== src/Queue/Sharing.antt =====
-- Several workers over one Redis (internal/queue/redis.go): each command is atomic, and between
-- two commands of one worker any commands of others may run.
pub mod Counts
pub mod Clients
pub mod Places
pub mod Reaching
pub mod Kept
pub mod Loss
pub mod Delivery
pub mod Runs
pub mod Twice
use distributed_job_processo.Base.{
  ℕ, zero, suc, ◌+◌, ◌-◌, ◌*◌, ◌/◌, ◌%◌, ◌^◌, ◌≤◌, ◌<◌, String, ◌≡◌, refl, ◌≢◌, refl, sym, ap, ◌∙◌,
  subst, ◌≢◌, ◌↔◌, ◌⊎◌, inl, inr, Bool, true, false, not, ◌&&◌, ◌||◌, Option, none, some, List, [],
  ◌∷◌, ◌++◌, map, arith, str_eq, eq_iff, ltb, leb, ◌==◌, if◌then◌else◌, Bool-cases, Option-cases,
  str_eq_self, str_eq_of_ne, length, get_elem?, filter, Member, All, Any, wrap, minus_one, slt, inc,
  negate, slt-eq-ltb, some-eq,
}
use native.Mathlib.Decide.{ℕ_discrete}
use mathlib.Core.Logic.{ite}
use distributed_job_processo.Queue.Server.{
  Contents, Command, push_job, remove_delayed, ListKey, job_queue, processing_queue, push_left,
  without, run_command, due,
}
use distributed_job_processo.Queue.Defs.{unix, pipeline}

-- Where a worker is in `Pop`, with the local variables that are live there.
pub data Place (D : Type 0) : Type 0 where
  -- outside of `Pop`
  idle : Place D
  -- the commands of the pipeline of `moveDelayedJobs` that have still to run
  moving : List (Command D) → Place D
  -- after BRPOP, before `moveToProcessing`
  holding : D → Place D

-- Redis, the workers by number, and what has happened: the entries that were on the queue or in
-- the sorted set at the start or that `Push` added, the elements that LPUSH put on the queue,
-- those that BRPOP handed out, and those whose LPUSH in a pipeline was refused.
pub record Shared (D : Type 0) : Type 0 where
  pub contents : Contents D
  pub place : ℕ → Place D
  pub accepted : List D
  pub pushed : List D
  pub taken : List D
  pub refused : List D

module _ {D : Type 0} where
  abbrev pub put : (ℕ → Place D) → ℕ → Place D → ℕ → Place D
  put f i p j = ite (ℕ_discrete i j) p (f j)

  abbrev pub at : Shared D → ℕ → Place D → Shared D
  at s i p = record s { place = put s.place i p }

  abbrev pub start : Contents D → Shared D
  start c = record {
    contents = c;
    place = λ i. idle;
    accepted = c.queue ++ map (λ m. m.0) c.delayed;
    pushed = c.queue;
    taken = [];
    refused = [];
  }

  -- What one command does, for the worker that is at a place or for a client.
  pub data Step (same : D → D → Bool) (s : Shared D) : Shared D → Type 0 where
    -- `Push` of a job that is due
    push_now :
        (d : D)
        → Step same s (record s {
          contents = push_left job_queue d s.contents;
          accepted = d ∷ s.accepted;
          pushed = d ∷ s.pushed;
        })
    -- `Push` of a job that is scheduled later
    push_later :
        (d : D) (score : ℕ) (before after : List (D × ℕ))
        → without same d s.contents.delayed ≡ before ++ after
        → Step same s (record s {
          contents = record s.contents { delayed = before ++ (d, score) ∷ after };
          accepted = d ∷ s.accepted;
        })
    -- ZRANGEBYSCORE, with the pipeline for what it returns
    search :
        (i now : ℕ)
        → s.place i ≡ idle
        → Step same s (at s i (moving (pipeline (due (unix now) s.contents.delayed))))
    search_fails : (i : ℕ) → s.place i ≡ idle → Step same s (at s i (moving []))
    -- the commands of the pipeline, one after the other
    run_push :
        (i : ℕ) (d : D) (cs : List (Command D))
        → s.place i ≡ moving (push_job d ∷ cs)
        → Step same s (record s {
          contents = push_left job_queue d s.contents;
          place = put s.place i (moving cs);
          pushed = d ∷ s.pushed;
        })
    run_remove :
        (i : ℕ) (d : D) (cs : List (Command D))
        → s.place i ≡ moving (remove_delayed d ∷ cs)
        → Step same s (record s {
          contents = run_command same s.contents (remove_delayed d);
          place = put s.place i (moving cs);
        })
    -- the server refuses a command of the pipeline; those behind it run nevertheless
    refuse_push :
        (i : ℕ) (d : D) (cs : List (Command D))
        → s.place i ≡ moving (push_job d ∷ cs)
        → Step same s (record s { place = put s.place i (moving cs); refused = d ∷ s.refused })
    refuse_remove :
        (i : ℕ) (d : D) (cs : List (Command D))
        → s.place i ≡ moving (remove_delayed d ∷ cs)
        → Step same s (at s i (moving cs))
    -- the connection breaks, and the rest of the pipeline is not run
    break :
        (i : ℕ) (cs : List (Command D)) → s.place i ≡ moving cs → Step same s (at s i (moving []))
    -- BRPOP
    take :
        (i : ℕ) (d : D) (q : List D)
        → s.place i ≡ moving []
        → s.contents.queue ≡ q ++ d ∷ []
        → Step same s (record s {
          contents = record s.contents { queue = q };
          place = put s.place i (holding d);
          taken = d ∷ s.taken;
        })
    find_nothing : (i : ℕ) → s.place i ≡ moving [] → Step same s (at s i idle)
    -- `moveToProcessing` of the job that was read; an entry that cannot be read is dropped
    note :
        (i : ℕ) (d e : D)
        → s.place i ≡ holding d
        → Step same s (record s {
          contents = push_left processing_queue e s.contents;
          place = put s.place i idle;
        })
    note_fails : (i : ℕ) (d : D) → s.place i ≡ holding d → Step same s (at s i idle)
    -- commands on the other three lists
    elsewhere :
        (c : Contents D)
        → c.queue ≡ s.contents.queue
        → c.delayed ≡ s.contents.delayed
        → Step same s (record s { contents = c })

  pub data Steps (same : D → D → Bool) (s : Shared D) : Shared D → Type 0 where
    here : Steps same s s
    next : {t u : Shared D} → Steps same s t → Step same t u → Steps same s u

  pub Steps-append :
      {same : D → D → Bool} {s t u : Shared D} → Steps same s t → Steps same t u → Steps same s u
  Steps-append p here = p
  Steps-append p (next q st) = next (Steps-append p q) st

  pub put_self : (f : ℕ → Place D) (i : ℕ) (p : Place D) → put f i p i ≡ p
  put_self f i p = elim (ℕ_discrete i i) as (λ o. ite o p (f i) ≡ p) [
    | yes e ↦ refl
    | no e ↦ absurd (e refl)
  ]

  pub put_other : (f : ℕ → Place D) (i j : ℕ) (p : Place D) → i ≢ j → put f i p j ≡ f j
  put_other f i j p h = elim (ℕ_discrete i j) as (λ o. ite o p (f j) ≡ f j) [
    | yes e ↦ absurd (h e)
    | no e ↦ refl
  ]
