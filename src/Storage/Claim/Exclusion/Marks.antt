-- ===== src/Storage/Claim/Exclusion/Marks.antt =====
-- The mark of a claimant in the database, and the accesses of other claims.
use distributed_job_processo.Base.{
  ℕ, ◌+◌, ◌≤◌, String, ◌≡◌, refl, sym, subst, ◌≢◌, Bool, Option, none, some, List,
}
use distributed_job_processo.Storage.Nodes.{NodeInfo, Nodes, Effects}
use distributed_job_processo.Storage.Claim.{
  Stage, waiting, cleared, checked, registered, conflict, claimed, refused, failed, clear_leader,
  is_stale, set_leader, advance, after_clear, after_check, after_register, after_verify,
  after_step_down,
}
use distributed_job_processo.Storage.Claim.Exclusion.Documents.{
  Present, Present-clear, Present-upsert_other, Present-step_down_other,
}

module _ {S : Type 0} (nodes : Nodes S) (term_of : String → ℕ) (begin : ℕ)
    (effects : Effects nodes) where
  abbrev pub Marked : String → S → Type 0
  Marked i s = Present begin i (nodes.documents s)

  abbrev pub Sound : String → S → Stage → Type 0
  Sound i s (checked t) = (begin ≤ t) × (t ≤ begin + 2_000)
  Sound i s (registered t _ _) = (t ≤ begin + 2_000) × Marked i s
  Sound i s claimed = Marked i s
  Sound i s _ = Unit

  pub Marked-of :
      (i : String) (s' : S) (ns : List NodeInfo)
      → nodes.documents s' ≡ ns
      → Present begin i ns
      → Marked i s'
  Marked-of i s' ns e p = subst (Present begin i) (sym e) p

  Marked-clear :
      (now : ℕ) (i : String) (s : S) (o : Option S)
      → now ≤ begin + 2_000
      → nodes.update_many (is_stale now) clear_leader s ≡ o
      → Marked i s
      → Marked i (after_clear s o).1
  Marked-clear now i s none h e m = m
  Marked-clear now i s (some s') h e m =
      Marked-of i s' _ (effects.update_many_effect (is_stale now) clear_leader s s' e)
        (Present-clear begin now i (nodes.documents s) h m)

  Marked-register :
      (k i : String) (t : ℕ) (s : S) (o : Option (Bool × S))
      → k ≢ i
      → nodes.upsert k (set_leader t (term_of k)) s ≡ o
      → Marked i s
      → Marked i (after_register t s o).1
  Marked-register k i t s none d e m = m
  Marked-register k i t s (some (changed, s')) d e m =
      Marked-of i s' _ (effects.upsert_effect k (set_leader t (term_of k)) s changed s' e)
        (Present-upsert_other begin k i (set_leader t (term_of k)) (nodes.documents s) d m)

  Marked-step_down :
      (k i : String) (s : S) (o : Option S)
      → k ≢ i
      → nodes.update_one k clear_leader s ≡ o
      → Marked i s
      → Marked i (after_step_down s o).1
  Marked-step_down k i s none d e m = m
  Marked-step_down k i s (some s') d e m =
      Marked-of i s' _ (effects.update_one_effect k clear_leader s s' e)
        (Present-step_down_other begin k i (nodes.documents s) d m)

  pub Marked-count :
      (i : String) (test : NodeInfo → Bool) (s : S) → Marked i s → Marked i (nodes.count test s).1
  Marked-count i test s m = Marked-of i (nodes.count test s).1 _ (effects.count_keeps test s) m

  check-state : (now : ℕ) (p : Option ℕ × S) → (after_check now p).1 ≡ p.1
  check-state now (none, s) = refl
  check-state now (some n, s) = refl

  verify-state :
      (t retry : ℕ) (changed : Bool) (p : Option ℕ × S) → (after_verify t retry changed p).1 ≡ p.1
  verify-state t retry changed (none, s) = refl
  verify-state t retry changed (some n, s) = refl

  -- An access of another node's claim leaves the mark.
  pub Marked-advance :
      (k i : String) (now : ℕ) (st : Stage) (s : S)
      → k ≢ i
      → now ≤ begin + 2_000
      → Marked i s
      → Marked i (advance nodes k (term_of k) now st s).1
  unfolding advance
  Marked-advance k i now waiting s d h m = Marked-clear now i s _ h refl m
  Marked-advance k i now cleared s d h m =
      subst (Marked i) (sym (check-state now _)) (Marked-count i _ s m)
  Marked-advance k i now (checked t) s d h m = Marked-register k i t s _ d refl m
  Marked-advance k i now (registered t retry changed) s d h m =
      subst (Marked i) (sym (verify-state t retry changed _)) (Marked-count i _ s m)
  Marked-advance k i now conflict s d h m = Marked-step_down k i s _ d refl m
  Marked-advance k i now claimed s d h m = m
  Marked-advance k i now refused s d h m = m
  Marked-advance k i now failed s d h m = m
