-- ===== src/Queue/Delayed.antt =====
-- Delayed jobs: `moveDelayedJobs` and `Push` of internal/queue/redis.go against the sorted set.
use distributed_job_processo.Base.{
  ℕ, ◌≡◌, refl, ap, ◌∙◌, ◌↔◌, inl, inr, Bool, true, false, not, some, List, [], ◌∷◌, arith, leb,
  Bool-cases, filter, All,
}
use distributed_job_processo.Queue.Server.{
  Codec, Redis, Effects, Answers, Contents, Command, without, run_commands, due,
}
use distributed_job_processo.Queue.Defs.{unix, pipeline, move_delayed_jobs}

module _ {D : Type 0} where
  -- Pushing one element after the other on the left.
  abbrev pub push_all : List D → List D → List D
  push_all [] q = q
  push_all (d ∷ ds) q = push_all ds (d ∷ q)

  -- What a move leaves in the sorted set.
  abbrev pub waiting : ℕ → List (D × ℕ) → List (D × ℕ)
  waiting max = filter (λ m. not (leb m.1 max))

  module _ (same : D → D → Bool) where
    -- A sorted set holds a member once.
    abbrev pub Distinct : List (D × ℕ) → Type 0
    Distinct [] = Unit
    Distinct ((d, n) ∷ l) = All (λ m. same m.0 d ≡ false) l × Distinct l

    unfoldable pub drop_all : List D → List (D × ℕ) → List (D × ℕ)
    drop_all [] l = l
    drop_all (d ∷ ds) l = drop_all ds (without same d l)

    pub run_pipeline :
        (ds : List D) (c : Contents D)
        → run_commands same c (pipeline ds)
          ≡ record c { queue = push_all ds c.queue; delayed = drop_all ds c.delayed }
    unfolding drop_all
    run_pipeline [] c = refl
    run_pipeline (d ∷ ds) c =
        run_pipeline ds (record c { queue = d ∷ c.queue; delayed = without same d c.delayed })

    without-eq : (d : D) (l : List (D × ℕ)) → All (λ m. same m.0 d ≡ false) l → without same d l ≡ l
    without-eq d [] h = refl
    without-eq d (m ∷ l) h = simp (h.0, without-eq d l h.1)

    drop_all-cons :
        (ds : List D) (m : D × ℕ) (l : List (D × ℕ))
        → All (λ d. same m.0 d ≡ false) ds
        → drop_all ds (m ∷ l) ≡ m ∷ drop_all ds l
    unfolding drop_all
    drop_all-cons [] m l h = refl
    drop_all-cons (d ∷ ds) m l h = simp h.0 (drop_all-cons ds m (without same d l) h.1)

    module _ (same_iff : (a b : D) → (same a b ≡ true) ↔ (a ≡ b)) where
      pub same_flip : (a b : D) → same a b ≡ false → same b a ≡ false
      same_flip a b h = ground (arith, same_iff a b, same_iff b a)

      same_self : (a : D) → same a a ≡ true
      same_self a = (same_iff a a).1 refl

      All-due :
          (max : ℕ) (d : D) (l : List (D × ℕ))
          → All (λ m. same m.0 d ≡ false) l
          → All (λ x. same d x ≡ false) (due max l)
      All-due max d [] h = tt
      All-due max d ((x, n) ∷ l) h = ground (arith, All-due max d l h.1, same_flip x d)

      without_head :
          (d : D) (n : ℕ) (l : List (D × ℕ))
          → All (λ m. same m.0 d ≡ false) l
          → without same d ((d, n) ∷ l) ≡ l
      without_head d n l h = simp (same_self d) (without-eq d l h)

      drop_all-due :
          (max : ℕ) (l : List (D × ℕ)) → Distinct l → drop_all (due max l) l ≡ waiting max l
      unfolding drop_all
      drop_all-due max [] h = refl
      drop_all-due max ((d, n) ∷ l) h = elim (Bool-cases (leb n max)) [
        | inl now ↦
            simp now (ap (drop_all (due max l)) (without_head d n l h.0) ∙ drop_all-due max l h.1)
        | inr later ↦ simp later (
            drop_all-cons (due max l) (d, n) l (All-due max d l h.0)
            ∙ ap (λ r. (d, n) ∷ r) (drop_all-due max l h.1))
      ]

module _ {S D : Type 0} (codec : Codec D) (redis : Redis S D) (effects : Effects redis) where
  move_of_members :
      Answers redis
      → (now : ℕ) (s : S) (ds : List D) → redis.zrange_by_score (unix now) s ≡ some ds
      → redis.contents (move_delayed_jobs codec redis now s) ≡ record (redis.contents s) {
        queue = push_all ds (redis.contents s).queue;
        delayed = drop_all redis.same ds (redis.contents s).delayed;
      }
  unfolding move_delayed_jobs drop_all
  move_of_members answers now s [] e = rw (e, move_delayed_jobs)
  move_of_members answers now s (d ∷ ds) e =
      rw (e, move_delayed_jobs)
        (effects.exec_effect cs s (redis.exec cs s).0
            (ap (λ b. ((redis.exec cs s).0, b)) (answers.exec_answers cs s))
          ∙ run_pipeline redis.same (d ∷ ds) (redis.contents s))
    where
      cs : List (Command D)
      cs = pipeline (d ∷ ds)

  -- On a server that answers, a move takes exactly the members whose second has come out of the
  -- sorted set and puts them on the queue in the set's order; the other lists stay.
  pub move_delayed_jobs-contents :
      Answers redis
      → (now : ℕ) (s : S) → Distinct redis.same (redis.contents s).delayed
      → redis.contents (move_delayed_jobs codec redis now s) ≡ record (redis.contents s) {
        queue = push_all (due (unix now) (redis.contents s).delayed) (redis.contents s).queue;
        delayed = waiting (unix now) (redis.contents s).delayed;
      }
  move_delayed_jobs-contents answers now s distinct =
      let (ds, e) = answers.zrange_answers (unix now) s in
      let all_due = effects.zrange_effect (unix now) s ds e in
      move_of_members answers now s ds e
      ∙ ap
          (λ l. record (redis.contents s) {
            queue = push_all l (redis.contents s).queue;
            delayed = drop_all redis.same l (redis.contents s).delayed;
          })
          all_due
      ∙ ap
          (λ l. record (redis.contents s) {
            queue = push_all (due (unix now) (redis.contents s).delayed) (redis.contents s).queue;
            delayed = l;
          })
          (drop_all-due redis.same effects.same_iff (unix now) (redis.contents s).delayed distinct)
