-- ===== src/Queue/Refinement/Scheduling.antt =====
-- The sorted set of internal/queue/redis.go against the jobs that wait.
use distributed_job_processo.Base.{
  ℕ, ◌≡◌, refl, sym, ap, ◌∙◌, subst, ◌≢◌, inl, inr, Bool, true, false, not, some, List, [], ◌∷◌,
  ◌++◌, arith, leb, if◌then◌else◌, Bool-cases, filter, All, some-eq,
}
use distributed_job_processo.Base.{some-eq}
use distributed_job_processo.Job.{Job}
use distributed_job_processo.Queue.Server.{Codec, ReadsBack, Redis, Effects, without, due}
use distributed_job_processo.Queue.Order.{Loaded, Loaded-push}
use mathlib.Core.List.{append-nil, append_assoc}
use distributed_job_processo.Queue.Delayed.{push_all, waiting, Distinct, same_flip}
use distributed_job_processo.Queue.Refinement.{due_jobs, waiting_jobs, Removed, Scheduled}

module _ {D : Type 0} where
  All-filter :
      (P : D × ℕ → Type 0) (test : D × ℕ → Bool) (l : List (D × ℕ))
      → All P l
      → All P (filter test l)
  All-filter P test [] h = tt
  All-filter P test (m ∷ l) h = by_test (test m) h.0 (All-filter P test l h.1)
    where
      by_test :
          (b : Bool)
          → P m
          → All P (filter test l)
          → All P (if b then m ∷ filter test l else filter test l)
      by_test true p rest = (p, rest)
      by_test false p rest = rest

  All-insert :
      (P : D × ℕ → Type 0) (m : D × ℕ) (before after : List (D × ℕ))
      → P m
      → All P (before ++ after)
      → All P (before ++ m ∷ after)
  All-insert P m [] after p h = (p, h)
  All-insert P m (x ∷ before) after p h = (h.0, All-insert P m before after p h.1)

  All-without :
      (same : D → D → Bool) (d : D) (l : List (D × ℕ))
      → All (λ m. same m.0 d ≡ false) (without same d l)
  All-without same d [] = tt
  All-without same d (m ∷ l) = elim (Bool-cases (same m.0 d)) [
    | inl e ↦ rw e (All-without same d l)
    | inr e ↦ rw e (e, All-without same d l)
  ]

  Distinct-filter :
      (same : D → D → Bool) (test : D × ℕ → Bool) (l : List (D × ℕ))
      → Distinct same l
      → Distinct same (filter test l)
  Distinct-filter same test [] h = tt
  Distinct-filter same test ((d, n) ∷ l) h =
      by_test (test (d, n)) (All-filter _ test l h.0) (Distinct-filter same test l h.1)
    where
      by_test :
          (b : Bool)
          → All (λ m. same m.0 d ≡ false) (filter test l)
          → Distinct same (filter test l)
          → Distinct same (if b then (d, n) ∷ filter test l else filter test l)
      by_test true p rest = (p, rest)
      by_test false p rest = rest

module _ {S D : Type 0} (codec : Codec D) (redis : Redis S D) (laws : ReadsBack codec)
    (effects : Effects redis) where
  pub Distinct-insert :
      (d : D) (n : ℕ) (before after : List (D × ℕ))
      → All (λ m. redis.same m.0 d ≡ false) (before ++ after)
      → Distinct redis.same (before ++ after)
      → Distinct redis.same (before ++ (d, n) ∷ after)
  Distinct-insert d n [] after fresh h = (fresh, h)
  Distinct-insert d n ((x, k) ∷ before) after fresh h = (
    All-insert _ (d, n) before after (same_flip redis.same effects.same_iff x d fresh.0) h.0,
    Distinct-insert d n before after fresh.1 h.1,
  )

  -- The same data are those of the same job.
  same-job :
      (i j : Job) (c d : D)
      → codec.marshal i ≡ some c
      → codec.marshal j ≡ some d
      → redis.same c d ≡ true
      → i ≡ j
  same-job i j c d e f h = some-eq i j (
      sym (laws.read_back i c e)
      ∙ ap codec.unmarshal ((effects.same_iff c d).0 h)
      ∙ laws.read_back j d f)

  other-job :
      (i j : Job) (c d : D)
      → codec.marshal i ≡ some c
      → codec.marshal j ≡ some d
      → redis.same c d ≡ false
      → i ≢ j
  other-job i j c d e f h same =
      ground (arith, (effects.same_iff c d).1 (some-eq c d (sym e ∙ ap codec.marshal same ∙ f)))

  -- ZREM of a job's data
  pub Scheduled-without :
      (j : Job) (d : D) (a : List (Job × ℕ)) (c : List (D × ℕ))
      → codec.marshal j ≡ some d
      → Scheduled codec redis a c
      → (k : List (Job × ℕ)) × Removed j a k × Scheduled codec redis k (without redis.same d c)
  Scheduled-without j d [] [] e h = ([], refl, tt)
  Scheduled-without j d [] (m ∷ c) e h = absurd h
  Scheduled-without j d (m ∷ a) [] e h = absurd h
  Scheduled-without j d ((i, n) ∷ a) ((x, m) ∷ c) e (written, score, rest) =
      let (k, removed, scheduled) = Scheduled-without j d a c e rest in
      elim (Bool-cases (redis.same x d)) [
        | inl t ↦ rw t (k, inl (same-job i j x d written e t, removed), scheduled)
        | inr t ↦ rw t (
          (i, n) ∷ k,
          inr (other-job i j x d written e t, (k, refl, removed)),
          (written, score, scheduled),
        )
      ]

  -- ZADD of a job's data somewhere
  pub Scheduled-insert :
      (j : Job) (d : D) (n : ℕ) (a : List (Job × ℕ)) (before after : List (D × ℕ))
      → codec.marshal j ≡ some d
      → Scheduled codec redis a (before ++ after)
      → (b k : List (Job × ℕ)) × (a ≡ b ++ k)
        × Scheduled codec redis (b ++ (j, n) ∷ k) (before ++ (d, n) ∷ after)
  Scheduled-insert j d n a [] after e h = ([], a, refl, (e, refl, h))
  Scheduled-insert j d n [] (m ∷ before) after e h = absurd h
  Scheduled-insert j d n (i ∷ a) ((x, m) ∷ before) after e (written, score, rest) =
      let (b, k, split, inserted) = Scheduled-insert j d n a before after e rest in
      (i ∷ b, k, ap (λ l. i ∷ l) split, (written, score, inserted))

  pub Scheduled-waiting :
      (max : ℕ) (a : List (Job × ℕ)) (c : List (D × ℕ))
      → Scheduled codec redis a c
      → Scheduled codec redis (waiting_jobs max a) (waiting max c)
  Scheduled-waiting max [] [] h = tt
  Scheduled-waiting max [] (m ∷ c) h = absurd h
  Scheduled-waiting max (m ∷ a) [] h = absurd h
  Scheduled-waiting max ((j, n) ∷ a) ((d, m) ∷ c) (written, score, rest) =
      rw score (by_score (leb m max) (Scheduled-waiting max a c rest))
    where
      by_score :
          (b : Bool)
          → Scheduled codec redis (waiting_jobs max a) (waiting max c)
          → Scheduled codec redis
              (if not b then (j, m) ∷ waiting_jobs max a else waiting_jobs max a)
              (if not b then (d, m) ∷ waiting max c else waiting max c)
      by_score true kept = kept
      by_score false kept = (written, refl, kept)

  -- The move puts the jobs that are due behind those that are ready.
  pub Loaded-due :
      (max : ℕ) (a : List (Job × ℕ)) (c : List (D × ℕ)) (js : List Job) (q : List D)
      → Scheduled codec redis a c
      → Loaded codec redis js q
      → Loaded codec redis (js ++ due_jobs max a) (push_all (due max c) q)
  Loaded-due max [] [] js q h loaded = rw append-nil loaded
  Loaded-due max [] (m ∷ c) js q h loaded = absurd h
  Loaded-due max (m ∷ a) [] js q h loaded = absurd h
  Loaded-due max ((j, n) ∷ a) ((d, m) ∷ c) js q (written, score, rest) loaded =
      rw score (elim (Bool-cases (leb m max)) [
        | inl e ↦ rw e (
            subst (λ l. Loaded codec redis l (push_all (due max c) (d ∷ q)))
              (append_assoc js (j ∷ []) (due_jobs max a))
              (Loaded-due max a c (js ++ j ∷ []) (d ∷ q) rest
                (Loaded-push codec redis js q d j (laws.read_back j d written) loaded)))
        | inr e ↦ rw e (Loaded-due max a c js q rest loaded)
      ])

  pub Distinct-waiting :
      (max : ℕ) (c : List (D × ℕ)) → Distinct redis.same c → Distinct redis.same (waiting max c)
  Distinct-waiting max c = Distinct-filter redis.same (λ m. not (leb m.1 max)) c

  pub Distinct-without :
      (d : D) (c : List (D × ℕ))
      → Distinct redis.same c
      → Distinct redis.same (without redis.same d c)
        × All (λ m. redis.same m.0 d ≡ false) (without redis.same d c)
  Distinct-without d c h =
      (Distinct-filter redis.same (λ m. not (redis.same m.0 d)) c h, All-without redis.same d c)
