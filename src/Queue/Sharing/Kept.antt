-- ===== src/Queue/Sharing/Kept.antt =====
-- Several workers over one Redis: no entry gets lost on its way to a worker.
use distributed_job_processo.Base.{
  ℕ, ◌≡◌, refl, sym, ◌∙◌, subst, ◌↔◌, ◌⊎◌, inl, inr, Bool, true, List, [], ◌∷◌, ◌++◌, map,
  Bool-cases, Member, Any,
}
use distributed_job_processo.Queue.Server.{Contents, without}
use distributed_job_processo.Queue.Sharing.{
  Shared, Place, Step, push_now, push_later, search, search_fails, run_push, run_remove,
  refuse_push, refuse_remove, break, take, find_nothing, note, note_fails, elsewhere, Steps, here,
  next, start,
}
use distributed_job_processo.Queue.Sharing.Places.{
  CoveredAt, Settled, pipeline-Covered, Settled-push, Settled-refuse, CoveredAt-mono, CoveredAt-put,
  Covered-pushed,
}

module _ {D : Type 0} where
  -- A key of the sorted set
  abbrev pub Scored : D → List (D × ℕ) → Type 0
  Scored d = Any (λ m. d ≡ m.0)

  -- Every entry that was accepted waits in the sorted set or is settled, and the workers remove
  -- only entries from the set that are settled.
  abbrev pub Kept : Shared D → Type 0
  Kept s =
      ((d : D) → Member d s.accepted → Scored d s.contents.delayed ⊎ Settled s d)
      × ((i : ℕ) → CoveredAt s (s.place i))

  Scored-insert :
      (x d : D) (n : ℕ) (before after : List (D × ℕ))
      → (x ≡ d) ⊎ Scored x (before ++ after)
      → Scored x (before ++ (d, n) ∷ after)
  Scored-insert x d n [] after h = h
  Scored-insert x d n (m ∷ before) after (inl e) = inr (Scored-insert x d n before after (inl e))
  Scored-insert x d n (m ∷ before) after (inr (inl e)) = inl e
  Scored-insert x d n (m ∷ before) after (inr (inr e)) =
      inr (Scored-insert x d n before after (inr e))

  module _ (same : D → D → Bool) (same_iff : (a b : D) → (same a b ≡ true) ↔ (a ≡ b)) where
    Scored-without :
        (x d : D) (l : List (D × ℕ)) → Scored x l → (x ≡ d) ⊎ Scored x (without same d l)
    Scored-without x d [] h = absurd h
    Scored-without x d (m ∷ l) (inl e) = elim (Bool-cases (same m.0 d)) [
      | inl t ↦ inl (e ∙ (same_iff m.0 d).0 t)
      | inr t ↦ inr (rw t (inl e))
    ]
    Scored-without x d (m ∷ l) (inr h) = elim (Bool-cases (same m.0 d)) [
      | inl t ↦ rw t (Scored-without x d l h)
      | inr t ↦ elim (Scored-without x d l h) [ inl e ↦ inl e | inr k ↦ inr (rw t (inr k)) ]
    ]

    -- Where an entry is after another was put on the queue, or into the sorted set
    after_push :
        (s : Shared D) (d x : D)
        → Scored x s.contents.delayed ⊎ Settled s x
        → Scored x s.contents.delayed ⊎ (Member x (d ∷ s.pushed) ⊎ Member x s.refused)
    after_push s d x (inl w) = inl w
    after_push s d x (inr h) = inr (Settled-push s d x h)

    after_refusal :
        (s : Shared D) (d x : D)
        → Scored x s.contents.delayed ⊎ Settled s x
        → Scored x s.contents.delayed ⊎ (Member x s.pushed ⊎ Member x (d ∷ s.refused))
    after_refusal s d x (inl w) = inl w
    after_refusal s d x (inr h) = inr (Settled-refuse s d x h)

    after_add :
        (s : Shared D) (d x : D) (n : ℕ) (before after : List (D × ℕ))
        → without same d s.contents.delayed ≡ before ++ after
        → Scored x s.contents.delayed ⊎ Settled s x
        → Scored x (before ++ (d, n) ∷ after) ⊎ Settled s x
    after_add s d x n before after e (inl w) = inl (
        Scored-insert x d n before after
          (subst (λ l. (x ≡ d) ⊎ Scored x l) e (Scored-without x d s.contents.delayed w)))
    after_add s d x n before after e (inr h) = inr h

    after_removal :
        (s : Shared D) (d x : D)
        → Settled s d
        → Scored x s.contents.delayed ⊎ Settled s x
        → Scored x (without same d s.contents.delayed) ⊎ Settled s x
    after_removal s d x gone (inl w) = elim (Scored-without x d s.contents.delayed w) [
      | inl e ↦ inr (subst (Settled s) (sym e) gone)
      | inr k ↦ inl k
    ]
    after_removal s d x gone (inr h) = inr h

    accepted_now :
        (s : Shared D) (d x : D)
        → ((y : D) → Member y s.accepted → Scored y s.contents.delayed ⊎ Settled s y)
        → Member x (d ∷ s.accepted)
        → Scored x s.contents.delayed ⊎ (Member x (d ∷ s.pushed) ⊎ Member x s.refused)
    accepted_now s d x kept (inl e) = inr (inl (inl e))
    accepted_now s d x kept (inr m) = after_push s d x (kept x m)

    accepted_later :
        (s : Shared D) (d x : D) (n : ℕ) (before after : List (D × ℕ))
        → without same d s.contents.delayed ≡ before ++ after
        → ((y : D) → Member y s.accepted → Scored y s.contents.delayed ⊎ Settled s y)
        → Member x (d ∷ s.accepted)
        → Scored x (before ++ (d, n) ∷ after) ⊎ Settled s x
    accepted_later s d x n before after e kept (inl h) =
        inl (Scored-insert x d n before after (inl h))
    accepted_later s d x n before after e kept (inr m) = after_add s d x n before after e (kept x m)

    -- The commands at a worker's place
    at_place :
        (s : Shared D) (i : ℕ) (p : Place D)
        → s.place i ≡ p
        → CoveredAt s (s.place i)
        → CoveredAt s p
    at_place s i p e c = subst (CoveredAt s) e c

    Step-Kept : {s t : Shared D} → Step same s t → Kept s → Kept t
    Step-Kept {s} {t} (push_now d) (kept, covered) = (
      λ x m. accepted_now s d x kept m,
      λ j. CoveredAt-mono s t (Settled-push s d) (s.place j) (covered j),
    )
    Step-Kept {s} {t} (push_later d n before after e) (kept, covered) = (
      λ x m. accepted_later s d x n before after e kept m,
      λ j. CoveredAt-mono s t (λ x h. h) (s.place j) (covered j),
    )
    Step-Kept {s} {t} (search i now e) (kept, covered) =
        (kept, CoveredAt-put s t i _ (λ x h. h) covered (pipeline-Covered (Settled s) _))
    Step-Kept {s} {t} (search_fails i e) (kept, covered) =
        (kept, CoveredAt-put s t i _ (λ x h. h) covered tt)
    Step-Kept {s} {t} (run_push i d cs e) (kept, covered) = (
      λ x m. after_push s d x (kept x m),
      CoveredAt-put s t i _ (Settled-push s d) covered (
          Covered-pushed (Settled s) (Settled t) d cs (Settled-push s d) (inl (inl refl))
            (at_place s i _ e (covered i))),
    )
    Step-Kept {s} {t} (run_remove i d cs e) (kept, covered) =
        let (gone, rest) = at_place s i _ e (covered i) in
        (λ x m. after_removal s d x gone (kept x m), CoveredAt-put s t i _ (λ x h. h) covered rest)
    Step-Kept {s} {t} (refuse_push i d cs e) (kept, covered) = (
      λ x m. after_refusal s d x (kept x m),
      CoveredAt-put s t i _ (Settled-refuse s d) covered (
          Covered-pushed (Settled s) (Settled t) d cs (Settled-refuse s d) (inr (inl refl))
            (at_place s i _ e (covered i))),
    )
    Step-Kept {s} {t} (refuse_remove i d cs e) (kept, covered) =
        (kept, CoveredAt-put s t i _ (λ x h. h) covered (at_place s i _ e (covered i)).1)
    Step-Kept {s} {t} (break i cs e) (kept, covered) =
        (kept, CoveredAt-put s t i _ (λ x h. h) covered tt)
    Step-Kept {s} {t} (take i d q e split) (kept, covered) =
        (kept, CoveredAt-put s t i _ (λ x h. h) covered tt)
    Step-Kept {s} {t} (find_nothing i e) (kept, covered) =
        (kept, CoveredAt-put s t i _ (λ x h. h) covered tt)
    Step-Kept {s} {t} (note i d x e) (kept, covered) =
        (kept, CoveredAt-put s t i _ (λ x h. h) covered tt)
    Step-Kept {s} {t} (note_fails i d e) (kept, covered) =
        (kept, CoveredAt-put s t i _ (λ x h. h) covered tt)
    Step-Kept {s} {t} (elsewhere c q l) (kept, covered) = (
      λ x m. subst (λ k. Scored x k ⊎ Settled s x) (sym l) (kept x m),
      λ j. CoveredAt-mono s t (λ x h. h) (s.place j) (covered j),
    )

    pub Steps-Kept : {s t : Shared D} → Steps same s t → Kept s → Kept t
    Steps-Kept here h = h
    Steps-Kept (next p st) h = Step-Kept st (Steps-Kept p h)

    scored_or_queued :
        (x : D) (q : List D) (l : List (D × ℕ))
        → Member x (q ++ map (λ m. m.0) l)
        → Scored x l ⊎ Member x q
    scored_or_queued x [] [] h = absurd h
    scored_or_queued x [] (m ∷ l) (inl e) = inl (inl e)
    scored_or_queued x [] (m ∷ l) (inr h) = elim (scored_or_queued x [] l h) [
      | inl w ↦ inl (inr w)
      | inr k ↦ absurd k
    ]
    scored_or_queued x (y ∷ q) l (inl e) = inr (inl e)
    scored_or_queued x (y ∷ q) l (inr h) = elim (scored_or_queued x q l h) [
      | inl w ↦ inl w
      | inr k ↦ inr (inr k)
    ]

    pub start-Kept : (c : Contents D) → Kept (start c)
    start-Kept c = (λ x m. by_place x (scored_or_queued x c.queue c.delayed m), λ j. tt)
      where
        by_place :
            (x : D)
            → Scored x c.delayed ⊎ Member x c.queue
            → Scored x c.delayed ⊎ Settled (start c) x
        by_place x (inl w) = inl w
        by_place x (inr m) = inr (inl m)
