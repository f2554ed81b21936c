-- ===== src/Examples/Draining.antt =====
-- A worker that empties a queue of three jobs.
use distributed_job_processo.Base.{
  ◌+◌, String, ◌≡◌, refl, sym, ◌∙◌, subst, inl, inr, false, none, some, List, [], ◌∷◌, arith,
  str_eq, Bool-cases, wrap, some-eq,
}
use distributed_job_processo.Base.{some-eq}
use distributed_job_processo.Job.{Job, get}
use distributed_job_processo.Queue.Server.{Contents}
use distributed_job_processo.Worker.Pool.{Worker, World, Processor, run_worker}
use distributed_job_processo.Worker.Draining.{Only, run_worker-Only}
use distributed_job_processo.Examples.Stores.{
  plain_codec, plain_codec-ReadsBack, list_redis, list_redis-Effects, list_redis-Answers,
}
use distributed_job_processo.Examples.Queueing.{job, empty, worker, sender, no_jobs}

abbrev senders : List (String × Processor)
senders = ("email", sender) ∷ []

none-ne-some : {A : Type 0} (a : A) → none ≡ some a → ⊥
none-ne-some a e = cc

senders_succeed :
    (kind : String) (p : Processor) → get senders kind ≡ some p → (k : Job) → (p k).1 ≡ none
unfolding get
senders_succeed kind p e k = elim (Bool-cases (str_eq "email" kind)) [
  | inl t ↦ subst (λ (q : Processor). (q k).1 ≡ none) (some-eq sender p (sym (rw t refl) ∙ e)) refl
  | inr t ↦ absurd (none-ne-some p (sym (rw t refl) ∙ e))
]

abbrev loaded : World (Contents Job) (Unit {0})
loaded = record { redis = record empty { queue = job 3 ∷ job 2 ∷ job 1 ∷ [] }; mongo = tt }

abbrev run : Worker × World (Contents Job) (Unit {0})
run =
    run_worker plain_codec list_redis no_jobs (λ n. n) (λ round reading. 9) senders 3 worker loaded

run_worker-Only_example :
    (run.0.job_count ≡ wrap (0 + 3))
    × (run.0.is_active ≡ false)
    × Only plain_codec list_redis no_jobs
        (λ n. n)
        (λ round reading. 9)
        senders
        plain_codec-ReadsBack
        list_redis-Effects
        list_redis-Answers
        []
        run.1.redis
run_worker-Only_example =
    run_worker-Only plain_codec list_redis no_jobs (λ n. n) (λ round reading. 9) senders
      plain_codec-ReadsBack list_redis-Effects list_redis-Answers (job 1 ∷ job 2 ∷ job 3 ∷ [])
      worker loaded senders_succeed (omega arith) refl
      ((_, _, refl, refl, (_, _, refl, refl, (_, _, refl, refl, refl))), refl)
