-- ===== src/Queue/Sharing/Counts.antt =====
-- Several workers over one Redis: how often an entry is handed out.
use distributed_job_processo.Base.{
  ℕ, suc, ◌+◌, ◌<◌, ◌≡◌, refl, sym, ap, ◌↔◌, ◌⊎◌, inl, inr, Bool, true, List, [], ◌∷◌, ◌++◌, arith,
  ltb, if◌then◌else◌, Bool-cases, Member,
}
use distributed_job_processo.Queue.Sharing.{
  Shared, Step, push_now, push_later, search, search_fails, run_push, run_remove, refuse_push,
  refuse_remove, break, take, find_nothing, note, note_fails, elsewhere, Steps, here, next,
}

module _ {D : Type 0} (same : D → D → Bool) where
  -- How often an entry is on a list.
  abbrev pub count : D → List D → ℕ
  count d [] = 0
  count d (x ∷ xs) = let rest = count d xs in if same x d then suc rest else rest

  abbrev pub Balanced : Shared D → Type 0
  Balanced s = (d : D) → count d s.pushed ≡ count d s.contents.queue + count d s.taken

  count-snoc : (d x : D) (q : List D) → count d (q ++ x ∷ []) ≡ count d (x ∷ q)
  count-snoc d x [] = refl
  count-snoc d x (y ∷ q) = ground (arith, count-snoc d x q)

  Step-Balanced : {s t : Shared D} → Step same s t → Balanced s → Balanced t
  Step-Balanced (push_now x) h d = ground (arith, h d)
  Step-Balanced (push_later x n b a e) h d = h d
  Step-Balanced (search i now e) h d = h d
  Step-Balanced (search_fails i e) h d = h d
  Step-Balanced (run_push i x cs e) h d = ground (arith, h d)
  Step-Balanced (run_remove i x cs e) h d = h d
  Step-Balanced (refuse_push i x cs e) h d = h d
  Step-Balanced (refuse_remove i x cs e) h d = h d
  Step-Balanced (break i cs e) h d = h d
  Step-Balanced (take i x q e split) h d = ground (arith, h d, ap (count d) split, count-snoc d x q)
  Step-Balanced (find_nothing i e) h d = h d
  Step-Balanced (note i x y e) h d = h d
  Step-Balanced (note_fails i x e) h d = h d
  Step-Balanced (elsewhere c q l) h d = omega (arith, h d, ap (count d) q)

  pub Steps-Balanced : {s t : Shared D} → Steps same s t → Balanced s → Balanced t
  Steps-Balanced here h = h
  Steps-Balanced (next p st) h = Step-Balanced st (Steps-Balanced p h)

  Member-count :
      (same_iff : (a b : D) → (same a b ≡ true) ↔ (a ≡ b)) (d : D) (q : List D)
      → 0 < count d q
      → Member d q
  Member-count same_iff d [] h = absurd (omega arith)
  Member-count same_iff d (x ∷ q) h = elim (Bool-cases (same x d)) [
    | inl e ↦ inl (sym ((same_iff x d).0 e))
    | inr e ↦ inr (Member-count same_iff d q (ground arith))
  ]

  count_pos :
      (same_iff : (a b : D) → (same a b ≡ true) ↔ (a ≡ b)) (d : D) (q : List D)
      → Member d q
      → 0 < count d q
  count_pos same_iff d [] h = absurd h
  count_pos same_iff d (x ∷ q) (inl e) = ground (arith, (same_iff x d).1 (sym e))
  count_pos same_iff d (x ∷ q) (inr h) = ground (arith, count_pos same_iff d q h)

  -- What was pushed is on the queue or was handed out.
  pub Balanced-Member :
      (same_iff : (a b : D) → (same a b ≡ true) ↔ (a ≡ b)) (s : Shared D) (d : D)
      → Balanced s
      → Member d s.pushed
      → Member d s.contents.queue ⊎ Member d s.taken
  Balanced-Member same_iff s d h m = elim (Bool-cases (ltb 0 (count d s.contents.queue))) [
    | inl e ↦ inl (Member-count same_iff d s.contents.queue (ground arith))
    | inr e ↦
        inr (Member-count same_iff d s.taken (ground (arith, h d, count_pos same_iff d s.pushed m)))
  ]
