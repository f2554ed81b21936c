-- ===== src/Storage/Claim/Exclusion/Documents.antt =====
-- The registration of a claimant in the list of documents, and what other accesses leave of it.
use distributed_job_processo.Base.{
  ℕ, ◌+◌, ◌≤◌, String, ◌≡◌, refl, sym, ◌∙◌, ◌≢◌, inl, inr, true, false, List, [], ◌∷◌, arith,
  eq_iff, Bool-cases, str_eq_of_ne, Any,
}
use distributed_job_processo.Storage.Nodes.{
  fresh, NodeInfo, has_id, update_where, upsert_in, count_in,
}
use distributed_job_processo.Storage.Claim.{clear_leader, is_stale, is_rival}

-- The document marks the node as leader, seen at `begin` or later.
abbrev pub Leads : ℕ → String → NodeInfo → Type 0
Leads begin i n = (n.id ≡ i) × (n.is_leader ≡ true) × (begin ≤ n.last_seen)

abbrev pub Present : ℕ → String → List NodeInfo → Type 0
Present begin i = Any (Leads begin i)

module _ (begin : ℕ) where
  pub Present-clear :
      (now : ℕ) (i : String) (ns : List NodeInfo)
      → now ≤ begin + 2_000
      → Present begin i ns
      → Present begin i (update_where (is_stale now) clear_leader ns)
  Present-clear now i [] h p = absurd p
  Present-clear now i (n ∷ ns) h (inl l) = inl (rw fresh_enough l)
    where
      fresh_enough : is_stale now n ≡ false
      fresh_enough = ground arith
  Present-clear now i (n ∷ ns) h (inr p) = inr (Present-clear now i ns h p)

  pub Present-upsert_other :
      (k i : String) (set : NodeInfo → NodeInfo) (ns : List NodeInfo)
      → k ≢ i
      → Present begin i ns
      → Present begin i (upsert_in k set ns)
  Present-upsert_other k i set [] h p = absurd p
  Present-upsert_other k i set (n ∷ ns) h (inl l) = rw other (inl l)
    where
      other : has_id k n ≡ false
      other = str_eq_of_ne n.id k (λ e. h (sym e ∙ l.0))
  Present-upsert_other k i set (n ∷ ns) h (inr p) = elim (Bool-cases (has_id k n)) [
    | inl e ↦ rw e (inr p)
    | inr e ↦ rw e (inr (Present-upsert_other k i set ns h p))
  ]

  pub Present-upsert_self :
      (i : String) (set : NodeInfo → NodeInfo) (ns : List NodeInfo)
      → ((n : NodeInfo) → n.id ≡ i → Leads begin i (set n))
      → Present begin i (upsert_in i set ns)
  Present-upsert_self i set [] h = inl (h (fresh i) refl)
  Present-upsert_self i set (n ∷ ns) h = elim (Bool-cases (has_id i n)) [
    | inl e ↦ rw e (inl (h n ((eq_iff n.id i).0 e)))
    | inr e ↦ rw e (inr (Present-upsert_self i set ns h))
  ]

  pub Present-step_down_other :
      (k i : String) (ns : List NodeInfo)
      → k ≢ i
      → Present begin i ns
      → Present begin i (update_where (has_id k) clear_leader ns)
  Present-step_down_other k i [] h p = absurd p
  Present-step_down_other k i (n ∷ ns) h (inl l) = inl (rw other l)
    where
      other : has_id k n ≡ false
      other = str_eq_of_ne n.id k (λ e. h (sym e ∙ l.0))
  Present-step_down_other k i (n ∷ ns) h (inr p) = inr (Present-step_down_other k i ns h p)

  rival :
      (t : ℕ) (i : String) (n : NodeInfo)
      → t ≤ begin + 2_000
      → Leads begin i n
      → is_rival t n ≡ true
  rival t i n h l = ground arith

  count-step :
      (t : ℕ) (n : NodeInfo) (ns : List NodeInfo)
      → count_in (is_rival t) ns ≤ count_in (is_rival t) (n ∷ ns)
  count-step t n ns = ground arith

  one_rival :
      (t : ℕ) (i : String) (ns : List NodeInfo)
      → t ≤ begin + 2_000
      → Present begin i ns
      → 1 ≤ count_in (is_rival t) ns
  one_rival t i [] h p = absurd p
  one_rival t i (n ∷ ns) h (inl l) = rw (rival t i n h l) (omega arith)
  one_rival t i (n ∷ ns) h (inr p) = omega (arith, count-step t n ns, one_rival t i ns h p)

  -- Two registered claimants are counted twice.
  pub two_rivals :
      (t : ℕ) (i j : String) (ns : List NodeInfo)
      → i ≢ j
      → t ≤ begin + 2_000
      → Present begin i ns
      → Present begin j ns
      → 2 ≤ count_in (is_rival t) ns
  two_rivals t i j [] d h p q = absurd p
  two_rivals t i j (n ∷ ns) d h (inl l) (inl m) = absurd (d (sym l.0 ∙ m.0))
  two_rivals t i j (n ∷ ns) d h (inl l) (inr q) =
      rw (rival t i n h l) (omega (arith, one_rival t j ns h q))
  two_rivals t i j (n ∷ ns) d h (inr p) (inl m) =
      rw (rival t j n h m) (omega (arith, one_rival t i ns h p))
  two_rivals t i j (n ∷ ns) d h (inr p) (inr q) =
      omega (arith, count-step t n ns, two_rivals t i j ns d h p q)
