-- ===== src/Queue/Sharing/Loss.antt =====
-- Several workers over one Redis: what becomes of an entry that was accepted.
use distributed_job_processo.Base.{
  ℕ, ◌≤◌, ◌≡◌, refl, ap, ◌∙◌, ◌↔◌, ◌⊎◌, inl, inr, Bool, true, [], ◌∷◌, arith, Member,
}
use distributed_job_processo.Queue.Server.{Contents, remove_delayed, due, without, run_command}
use distributed_job_processo.Queue.Defs.{unix, pipeline}
use distributed_job_processo.Queue.Sharing.{
  Shared, idle, moving, search, run_remove, refuse_push, Steps, start, Steps-append,
}
use distributed_job_processo.Queue.Sharing.Counts.{Balanced-Member, Steps-Balanced}
use distributed_job_processo.Queue.Sharing.Kept.{Scored, Steps-Kept, start-Kept}
use distributed_job_processo.Queue.Sharing.Reaching.{Step-Reaches}

module _ {D : Type 0} (same : D → D → Bool)
    (same_iff : (a b : D) → (same a b ≡ true) ↔ (a ≡ b)) where
  -- An entry that `Push` accepted, or that was there at the start, is in the sorted set, on the
  -- queue or was handed out, whatever workers and clients do in whatever order and whatever
  -- connections break, unless the server refused an LPUSH of it in the pipeline of a move.
  pub accepted_kept :
      (c : Contents D) (t : Shared D) (d : D)
      → Steps same (start c) t
      → Member d t.accepted
      → Scored d t.contents.delayed
        ⊎ (Member d t.contents.queue ⊎ (Member d t.taken ⊎ Member d t.refused))
  accepted_kept c t d p m =
      by_place ((Steps-Kept same same_iff p (start-Kept same same_iff c)).0 d m)
    where
      by_place :
          Scored d t.contents.delayed ⊎ (Member d t.pushed ⊎ Member d t.refused)
          → Scored d t.contents.delayed
            ⊎ (Member d t.contents.queue ⊎ (Member d t.taken ⊎ Member d t.refused))
      by_place (inl w) = inl w
      by_place (inr (inr r)) = inr (inr (inr r))
      by_place (inr (inl q)) =
          elim (Balanced-Member same same_iff t d (Steps-Balanced same p (λ x. omega arith)) q) [
            | inl k ↦ inr (inl k)
            | inr k ↦ inr (inr (inl k))
          ]

  -- A server that refuses the LPUSH of a move and accepts the ZREM behind it: the pipeline is no
  -- transaction, so an entry that is due leaves the sorted set and comes nowhere else.
  pub refused_lost :
      (s : Shared D) (i now n : ℕ) (d : D)
      → s.place i ≡ idle
      → s.contents.delayed ≡ (d, n) ∷ []
      → n ≤ unix now
      → (t : Shared D) × Steps same s t
        × (t.contents ≡ record s.contents { delayed = [] })
        × (t.taken ≡ s.taken)
  refused_lost s i now n d e one h =
      let found : due (unix now) s.contents.delayed ≡ d ∷ [] =
        ap (due (unix now)) one ∙ (ground arith) in
      let first = Step-Reaches same s i _ _ _ _ _ _ (search i now e) in
      let second = Step-Reaches same first.last i _ _ _ _ _ _ (
        refuse_push i d (remove_delayed d ∷ [])
          (first.at_end ∙ ap (λ l. moving (pipeline l)) found)) in
      let third = Step-Reaches same second.last i _ _ _ _ _ _ (run_remove i d [] second.at_end) in
      (
        third.last,
        Steps-append first.steps (Steps-append second.steps third.steps),
        third.reached
            ∙ ap (λ (c : Contents D). run_command same c (remove_delayed d))
                (second.reached ∙ first.reached)
            ∙ ap (λ l. record s.contents { delayed = l })
                (ap (without same d) one ∙ rw ((same_iff d d).1 refl)),
        third.handed_out ∙ second.handed_out ∙ first.handed_out,
      )
