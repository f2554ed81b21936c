-- ===== src/Storage/Claim/Window.antt =====
-- The three time windows of `AtomicClaimLeadership` (internal/storage/mongodb.go).
use distributed_job_processo.Base.{
  ℕ, ◌+◌, ◌≤◌, ◌<◌, String, ◌≡◌, refl, sym, ap, ◌∙◌, subst, ◌≢◌, inl, inr, Bool, true, false, some,
  List, [], ◌∷◌, arith, eq_iff, Bool-cases, str_eq_of_ne, All, Any,
}
use distributed_job_processo.Storage.Nodes.{
  NodeInfo, Nodes, Effects, Answers, has_id, update_where, upsert_in, count_in,
}
use distributed_job_processo.Storage.Claim.{
  Stage, waiting, claimed, after_clear, after_check, after_register, after_verify, is_stale,
  is_active_other, is_rival, set_leader, clear_leader, advance, claim_from,
}

-- No leader has been seen in the last three seconds.
abbrev pub Quiet : ℕ → List NodeInfo → Type 0
Quiet now = All (λ n. n.is_leader ≡ true → n.last_seen + 3_000 < now)

abbrev pub MarkedLeader : String → List NodeInfo → Type 0
MarkedLeader i = Any (λ n. (n.id ≡ i) × (n.is_leader ≡ true))

-- A leader that has been seen in the last ten seconds.
abbrev pub Lingers : String → ℕ → List NodeInfo → Type 0
Lingers i now = Any (λ n. (n.id ≡ i) × (n.is_leader ≡ true) × (now ≤ n.last_seen + 10_000))

Lingers-clear :
    (i : String) (now : ℕ) (ns : List NodeInfo)
    → Lingers i now ns
    → MarkedLeader i (update_where (is_stale now) clear_leader ns)
Lingers-clear i now [] p = absurd p
Lingers-clear i now (n ∷ ns) (inl l) = inl (rw recent (l.0, l.1))
  where
    recent : is_stale now n ≡ false
    recent = ground arith
Lingers-clear i now (n ∷ ns) (inr p) = inr (Lingers-clear i now ns p)

Quiet-clear :
    (now : ℕ) (ns : List NodeInfo)
    → Quiet now ns
    → Quiet now (update_where (is_stale now) clear_leader ns)
Quiet-clear now [] q = tt
Quiet-clear now (n ∷ ns) q = (ground (arith, q.0), Quiet-clear now ns q.1)

no_active :
    (now : ℕ) (b : String) (ns : List NodeInfo)
    → Quiet now ns
    → count_in (is_active_other now b) ns ≡ 0
no_active now b [] q = refl
no_active now b (n ∷ ns) q = ground (arith, q.0, no_active now b ns q.1)

no_rival : (now : ℕ) (ns : List NodeInfo) → Quiet now ns → count_in (is_rival now) ns ≡ 0
no_rival now [] q = refl
no_rival now (n ∷ ns) q = ground (arith, q.0, no_rival now ns q.1)

only_self :
    (now term : ℕ) (b : String) (ns : List NodeInfo)
    → Quiet now ns
    → count_in (is_rival now) (upsert_in b (set_leader now term) ns) ≡ 1
only_self now term b [] q = ground arith
only_self now term b (n ∷ ns) q =
    ground (arith, q.0, no_rival now ns q.1, only_self now term b ns q.1)

upsert-changes :
    (now term : ℕ) (b : String) (ns : List NodeInfo)
    → Quiet now ns
    → upsert_in b (set_leader now term) ns ≢ ns
upsert-changes now term b ns q same =
    let counts = ap (count_in (is_rival now)) same in
    let before = no_rival now ns q in
    let after = only_self now term b ns q in omega (arith, counts, before, after)

marked-upsert_other :
    (a b : String) (set : NodeInfo → NodeInfo) (ns : List NodeInfo)
    → b ≢ a
    → MarkedLeader a ns
    → MarkedLeader a (upsert_in b set ns)
marked-upsert_other a b set [] d p = absurd p
marked-upsert_other a b set (n ∷ ns) d (inl l) = rw other (inl l)
  where
    other : has_id b n ≡ false
    other = str_eq_of_ne n.id b (λ e. d (sym e ∙ l.0))
marked-upsert_other a b set (n ∷ ns) d (inr p) = elim (Bool-cases (has_id b n)) [
  | inl e ↦ rw e (inr p)
  | inr e ↦ rw e (inr (marked-upsert_other a b set ns d p))
]

marked-upsert_self :
    (b : String) (now term : ℕ) (ns : List NodeInfo)
    → MarkedLeader b (upsert_in b (set_leader now term) ns)
marked-upsert_self b now term [] = inl (refl, refl)
marked-upsert_self b now term (n ∷ ns) = elim (Bool-cases (has_id b n)) [
  | inl e ↦ rw e (inl ((eq_iff n.id b).0 e, refl))
  | inr e ↦ rw e (inr (marked-upsert_self b now term ns))
]

module _ {S : Type 0} (nodes : Nodes S) (effects : Effects nodes) (answers : Answers nodes)
    (b : String) (term now : ℕ) where
  -- The state after a count is another, with the same documents.
  counted :
      (test : NodeInfo → Bool) (s : S) (n : ℕ)
      → count_in test (nodes.documents s) ≡ n
      → nodes.count test s ≡ (some n, (nodes.count test s).1)
  counted test s n e =
      let (m, c) = answers.count_answers test s in
      ap (λ o. (o, (nodes.count test s).1)) (c ∙ ap some (effects.count_effect test s m c ∙ e))

  abbrev run : Stage × S → Stage × S
  run p = advance nodes b term now p.0 p.1

  -- The bug: if every leader has been silent for more than three seconds, but some node's mark is
  -- at most ten seconds old, a claim by another node on a database that answers succeeds and
  -- leaves both marked as leaders.
  pub two_leaders :
      (a : String) (s : S)
      → b ≢ a
      → Quiet now (nodes.documents s)
      → Lingers a now (nodes.documents s)
      → (s' : S) × (claim_from nodes b term (now ∷ now ∷ now ∷ now ∷ []) (waiting, s)
          ≡ (claimed, s'))
        × MarkedLeader a (nodes.documents s')
        × MarkedLeader b (nodes.documents s')
  unfolding claim_from advance
  two_leaders a s d quiet lingers =
      let (s₁, cleared_all) = answers.update_many_answers (is_stale now) clear_leader s in
      let docs₁ = effects.update_many_effect (is_stale now) clear_leader s s₁ cleared_all in
      let quiet₁ : Quiet now (nodes.documents s₁) =
        subst (Quiet now) (sym docs₁) (Quiet-clear now (nodes.documents s) quiet) in
      let s₂ = (nodes.count (is_active_other now b) s₁).1 in
      let docs₂ = effects.count_keeps (is_active_other now b) s₁ in
      let checks =
        counted (is_active_other now b) s₁ 0 (no_active now b (nodes.documents s₁) quiet₁) in
      let (changed, s₃, upserts, changes) = answers.upsert_answers b (set_leader now term) s₂ in
      let quiet₂ : Quiet now (nodes.documents s₂) = subst (Quiet now) (sym docs₂) quiet₁ in
      let registers : nodes.upsert b (set_leader now term) s₂ ≡ some (true, s₃) =
        upserts
        ∙ ap (λ c. some (c, s₃))
            (changes (upsert-changes now term b (nodes.documents s₂) quiet₂)) in
      let docs₃ = effects.upsert_effect b (set_leader now term) s₂ true s₃ registers in
      let alone : count_in (is_rival now) (nodes.documents s₃) ≡ 1 =
        ap (count_in (is_rival now)) docs₃ ∙ only_self now term b (nodes.documents s₂) quiet₂ in
      let verifies = counted (is_rival now) s₃ 1 alone in
      let s₄ = (nodes.count (is_rival now) s₃).1 in
      let docs₄ = effects.count_keeps (is_rival now) s₃ ∙ docs₃ in
      (
        s₄,
        ap (λ o. run (run (run (after_clear s o)))) cleared_all
            ∙ ap (λ p. run (run (after_check now p))) checks
            ∙ ap (λ o. run (after_register now s₂ o)) registers
            ∙ ap (λ p. after_verify now 0 true p) verifies,
        subst (MarkedLeader a) (sym docs₄) (
            marked-upsert_other a b (set_leader now term) (nodes.documents s₂) d (
              subst (MarkedLeader a) (sym (docs₂ ∙ docs₁))
                (Lingers-clear a now (nodes.documents s) lingers))),
        subst (MarkedLeader b) (sym docs₄) (marked-upsert_self b now term (nodes.documents s₂)),
      )
