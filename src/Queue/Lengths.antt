-- ===== src/Queue/Lengths.antt =====
-- `GetStats` of internal/queue/redis.go: the lengths of the five keys in one pipeline.
use distributed_job_processo.Base.{
  ℕ, ◌≡◌, refl, ap, ◌∙◌, Option, none, some, List, [], ◌∷◌, length, All,
}
use distributed_job_processo.Queue.Server.{
  Contents, Redis, ListKey, job_queue, processing_queue, completed_queue, failed_queue,
}

-- LLEN of a list, and ZCARD of the sorted set.
pub data Measure : Type 0 where
  llen : ListKey → Measure
  zcard : Measure

-- A pipeline of such commands: `none` is an error, otherwise each has its value.
pub record Lengths (S : Type 0) : Type 0 where
  pub exec : List Measure → S → Option (Measure → ℕ)

pub record QueueStats : Type 0 where
  pub pending : ℕ
  pub processing : ℕ
  pub completed : ℕ
  pub failed : ℕ
  pub delayed : ℕ

abbrev pub read_stats : Option (Measure → ℕ) → Option QueueStats
read_stats none = none
read_stats (some val) = some (record {
  pending = val (llen job_queue);
  processing = val (llen processing_queue);
  completed = val (llen completed_queue);
  failed = val (llen failed_queue);
  delayed = val zcard;
})

unfoldable pub get_stats : {S : Type 0} → Lengths S → S → Option QueueStats
get_stats lengths s = read_stats (
    lengths.exec
      (llen job_queue
        ∷ llen processing_queue
        ∷ llen completed_queue
        ∷ llen failed_queue
        ∷ zcard
        ∷ [])
      s)

-- The length that a command measures.
abbrev pub measured : {D : Type 0} → Contents D → Measure → ℕ
measured c (llen job_queue) = length c.queue
measured c (llen processing_queue) = length c.processing
measured c (llen completed_queue) = length c.completed
measured c (llen failed_queue) = length c.failed
measured c zcard = length c.delayed

-- The documented effect
pub record Measures {S D : Type 0} (redis : Redis S D) (lengths : Lengths S) : Type 0 where
  pub exec_measures :
      (cs : List Measure) (s : S) (val : Measure → ℕ)
      → lengths.exec cs s ≡ some val
      → All (λ c. val c ≡ measured (redis.contents s) c) cs
  pub exec_responds :
      (cs : List Measure) (s : S) → (val : Measure → ℕ) × (lengths.exec cs s ≡ some val)

-- The statistics of a content.
abbrev pub stats_of_contents : {D : Type 0} → Contents D → QueueStats
stats_of_contents c = record {
  pending = length c.queue;
  processing = length c.processing;
  completed = length c.completed;
  failed = length c.failed;
  delayed = length c.delayed;
}

pub get_stats-contents :
    {S D : Type 0} (redis : Redis S D) (lengths : Lengths S)
    → Measures redis lengths
    → (s : S) → get_stats lengths s ≡ some (stats_of_contents (redis.contents s))
unfolding get_stats
get_stats-contents redis lengths measures s =
    let (val, e) =
      measures.exec_responds
        (llen job_queue
          ∷ llen processing_queue
          ∷ llen completed_queue
          ∷ llen failed_queue
          ∷ zcard
          ∷ [])
        s in
    let all = measures.exec_measures _ s val e in
    ap read_stats e ∙ rw (all.0, all.1.0, all.1.1.0, all.1.1.1.0, all.1.1.1.1.0) refl
