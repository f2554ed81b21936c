-- ===== src/Queue/Sharing/Twice.antt =====
-- Two workers that move the delayed jobs at the same time (internal/queue/redis.go, `Pop`).
use distributed_job_processo.Base.{ℕ, ◌≡◌, sym, ap, ◌∙◌, ◌≢◌, Bool, List, []}
use distributed_job_processo.Queue.Server.{Contents, run_commands, due}
use distributed_job_processo.Queue.Defs.{unix, pipeline}
use distributed_job_processo.Queue.Delayed.{push_all, run_pipeline}
use distributed_job_processo.Queue.Sharing.{Shared, idle, moving, search, Steps, Steps-append}
use distributed_job_processo.Queue.Sharing.Reaching.{Step-Reaches, run_commands-Reaches}

module _ {D : Type 0} (same : D → D → Bool) where
  pushed_queue :
      (ds : List D) (c : Contents D)
      → (run_commands same c (pipeline ds)).queue ≡ push_all ds c.queue
  pushed_queue ds c = ap (λ (k : Contents D). k.queue) (run_pipeline same ds c)

  -- Two idle workers may both look into the sorted set before either has run its pipeline; then
  -- each entry that is due is put on the queue twice, whatever the set holds.
  pub moved_twice :
      (s : Shared D) (i j now : ℕ)
      → i ≢ j
      → s.place i ≡ idle
      → s.place j ≡ idle
      → let ds = due (unix now) s.contents.delayed in
        (t : Shared D) × Steps same s t
        × (t.contents.queue ≡ push_all ds (push_all ds s.contents.queue))
        × (t.place i ≡ moving [])
        × (t.place j ≡ moving [])
  moved_twice s i j now apart at_i at_j =
      let ds = due (unix now) s.contents.delayed in
      let cs = pipeline ds in
      let first = Step-Reaches same s i _ _ _ _ _ _ (search i now at_i) in
      let second =
        Step-Reaches same first.last j _ _ _ _ _ _ (search j now (first.others j apart ∙ at_j)) in
      let third =
        run_commands-Reaches same i cs second.last
          (second.others i (λ e. apart (sym e)) ∙ first.at_end) in
      let fourth = run_commands-Reaches same j cs third.last (
        third.others j apart
        ∙ second.at_end
        ∙ ap (λ (c : Contents D). moving (pipeline (due (unix now) c.delayed))) first.reached) in
      (
        fourth.last,
        Steps-append first.steps
            (Steps-append second.steps (Steps-append third.steps fourth.steps)),
        ap (λ (c : Contents D). c.queue) fourth.reached
            ∙ pushed_queue ds third.last.contents
            ∙ ap (λ (c : Contents D). push_all ds c.queue) third.reached
            ∙ ap (push_all ds) (pushed_queue ds second.last.contents)
            ∙ ap (λ (c : Contents D). push_all ds (push_all ds c.queue))
                (second.reached ∙ first.reached),
        fourth.others i (λ e. apart (sym e)) ∙ third.at_end,
        fourth.at_end,
      )
