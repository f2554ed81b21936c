-- ===== src/Examples/Sharing.antt =====
-- Two workers over one Redis with numbers as entries.
use distributed_job_processo.Base.{
  ℕ, ◌≡◌, refl, ◌↔◌, ◌⊎◌, inl, Bool, true, [], ◌∷◌, arith, ◌==◌, Member,
}
use distributed_job_processo.Job.{Job}
use distributed_job_processo.Queue.Server.{Contents, push_left, job_queue, due, remove_delayed}
use distributed_job_processo.Queue.Defs.{unix, pipeline}
use distributed_job_processo.Queue.Sharing.{
  Shared, moving, put, put_self, at, start, search, run_push, Steps, here, next,
}
use distributed_job_processo.Queue.Sharing.Kept.{Scored}
use distributed_job_processo.Queue.Sharing.Loss.{accepted_kept, refused_lost}
use distributed_job_processo.Examples.Queueing.{job, empty}

abbrev same_number : ℕ → ℕ → Bool
same_number a b = a == b

same_number_iff : (a b : ℕ) → (same_number a b ≡ true) ↔ (a ≡ b)
same_number_iff a b = (λ h. ground arith, λ e. ground arith)

-- The entry 7 is due after one second; nothing is ready.
abbrev waiting : Contents ℕ
waiting = record { queue = []; processing = []; completed = []; failed = []; delayed = (7, 1) ∷ [] }

-- The worker 0 has found the entry, and then put it on the queue.
abbrev searched : Shared ℕ
searched = at (start waiting) 0 (moving (pipeline (due (unix 2_000_000_000) waiting.delayed)))

abbrev halfway : Shared ℕ
halfway = record searched {
  contents = push_left job_queue 7 searched.contents;
  place = put searched.place 0 (moving (remove_delayed 7 ∷ []));
  pushed = 7 ∷ searched.pushed;
}

run_halfway : Steps same_number (start waiting) halfway
run_halfway =
    next (next here (search 0 2_000_000_000 refl))
      (run_push 0 7 (remove_delayed 7 ∷ []) (put_self (start waiting).place 0 _))

accepted_kept_example :
    Scored 7 halfway.contents.delayed
    ⊎ (Member 7 halfway.contents.queue ⊎ (Member 7 halfway.taken ⊎ Member 7 halfway.refused))
accepted_kept_example =
    accepted_kept same_number same_number_iff waiting halfway 7 run_halfway (inl refl)

refused_lost_example :
    (t : Shared ℕ) × Steps same_number (start waiting) t
    × (t.contents ≡ record waiting { delayed = [] })
    × (t.taken ≡ [])
refused_lost_example =
    refused_lost same_number same_number_iff (start waiting) 0 2_000_000_000 1 7 refl refl
      (omega arith)

abbrev one_delayed : Contents Job
one_delayed = record empty { delayed = (job 1, 1) ∷ [] }
