-- ===== src/Storage/Claim/Exclusion/Accesses.antt =====
-- What an access does to its own claim, and when a claim succeeds.
use distributed_job_processo.Base.{
  ℕ, ◌+◌, ◌≤◌, String, ◌≡◌, refl, sym, subst, ◌≢◌, Bool, true, false, Option, none, some, arith,
  ltb, ◌==◌, if◌then◌else◌,
}
use distributed_job_processo.Storage.Nodes.{Nodes, Effects}
use distributed_job_processo.Storage.Claim.{
  Stage, waiting, cleared, checked, registered, conflict, claimed, refused, failed, set_leader,
  is_rival, is_active_other, advance, after_clear, after_check, after_register, after_verify,
  after_step_down,
}
use distributed_job_processo.Storage.Claim.Exclusion.Documents.{Present-upsert_self, two_rivals}
use distributed_job_processo.Storage.Claim.Exclusion.Marks.{Marked, Sound, Marked-of, Marked-count}

module _ {S : Type 0} (nodes : Nodes S) (term_of : String → ℕ) (begin : ℕ)
    (effects : Effects nodes) where
  -- An access keeps what is known of its own claim.
  Sound-clear :
      (k : String) (s : S) (o : Option S)
      → Sound nodes term_of begin effects k (after_clear s o).1 (after_clear s o).0
  Sound-clear k s none = tt
  Sound-clear k s (some s') = tt

  Sound-step_down :
      (k : String) (s : S) (o : Option S)
      → Sound nodes term_of begin effects k (after_step_down s o).1 (after_step_down s o).0
  Sound-step_down k s none = tt
  Sound-step_down k s (some s') = tt

  Sound-if :
      (b : Bool) (k : String) (s : S) (p q : Stage)
      → Sound nodes term_of begin effects k s p
      → Sound nodes term_of begin effects k s q
      → Sound nodes term_of begin effects k s (if b then p else q)
  Sound-if true k s p q m n = m
  Sound-if false k s p q m n = n

  Sound-check :
      (k : String) (now : ℕ) (p : Option ℕ × S)
      → begin ≤ now
      → now ≤ begin + 2_000
      → Sound nodes term_of begin effects k (after_check now p).1 (after_check now p).0
  Sound-check k now (none, s) g h = tt
  Sound-check k now (some n, s) g h = Sound-if (ltb 0 n) k s refused (checked now) tt (g, h)

  Sound-register :
      (k : String) (t : ℕ) (s : S) (o : Option (Bool × S))
      → begin ≤ t
      → t ≤ begin + 2_000
      → nodes.upsert k (set_leader t (term_of k)) s ≡ o
      → Sound nodes term_of begin effects k (after_register t s o).1 (after_register t s o).0
  Sound-register k t s none g h e = tt
  Sound-register k t s (some (changed, s')) g h e = (
    h,
    Marked-of nodes term_of begin effects k s' _
        (effects.upsert_effect k (set_leader t (term_of k)) s changed s' e)
        (Present-upsert_self begin k (set_leader t (term_of k)) (nodes.documents s)
          (λ n same. (same, refl, g))),
  )

  Sound-verify :
      (k : String) (t retry : ℕ) (changed : Bool) (p : Option ℕ × S)
      → t ≤ begin + 2_000
      → Marked nodes term_of begin effects k p.1
      → Sound nodes term_of begin effects k
          (after_verify t retry changed p).1
          (after_verify t retry changed p).0
  Sound-verify k t retry changed (none, s) h m =
      Sound-if (retry == 2) k s failed (registered t (retry + 1) changed) tt (h, m)
  Sound-verify k t retry changed (some n, s) h m =
      Sound-if (ltb 1 n) k s conflict (if changed then claimed else refused) tt
        (Sound-if changed k s claimed refused m tt)

  pub Sound-advance :
      (k : String) (now : ℕ) (st : Stage) (s : S)
      → begin ≤ now
      → now ≤ begin + 2_000
      → Sound nodes term_of begin effects k s st
      → Sound nodes term_of begin effects k
          (advance nodes k (term_of k) now st s).1
          (advance nodes k (term_of k) now st s).0
  unfolding advance
  Sound-advance k now waiting s g h m = Sound-clear k s _
  Sound-advance k now cleared s g h m =
      Sound-check k now (nodes.count (is_active_other now k) s) g h
  Sound-advance k now (checked t) s g h m = Sound-register k t s _ m.0 m.1 refl
  Sound-advance k now (registered t retry changed) s g h m =
      Sound-verify k t retry changed (nodes.count (is_rival t) s) m.0
        (Marked-count nodes term_of begin effects k (is_rival t) s m.1)
  Sound-advance k now conflict s g h m = Sound-step_down k s _
  Sound-advance k now claimed s g h m = m
  Sound-advance k now refused s g h m = tt
  Sound-advance k now failed s g h m = tt

  -- A claim that is not through yet does not succeed while another node is marked.
  crowded-verify :
      (t retry : ℕ) (changed : Bool) (p : Option ℕ × S)
      → ((n : ℕ) → p.0 ≡ some n → 2 ≤ n)
      → (after_verify t retry changed p).0 ≢ claimed
  crowded-verify t retry changed (none, s) h e = ground arith
  crowded-verify t retry changed (some n, s) h e = ground (arith, h n refl)

  clear-ne : (s : S) (o : Option S) → (after_clear s o).0 ≢ claimed
  clear-ne s none e = cc
  clear-ne s (some s') e = cc

  check-ne : (now : ℕ) (p : Option ℕ × S) → (after_check now p).0 ≢ claimed
  check-ne now (none, s) e = cc
  check-ne now (some n, s) e = ground arith

  register-ne : (t : ℕ) (s : S) (o : Option (Bool × S)) → (after_register t s o).0 ≢ claimed
  register-ne t s none e = cc
  register-ne t s (some (changed, s')) e = cc

  step_down-ne : (s : S) (o : Option S) → (after_step_down s o).0 ≢ claimed
  step_down-ne s none e = cc
  step_down-ne s (some s') e = cc

  pub advance_crowded :
      (k j : String) (now : ℕ) (st : Stage) (s : S)
      → k ≢ j
      → Sound nodes term_of begin effects k s st
      → Marked nodes term_of begin effects j s
      → (advance nodes k (term_of k) now st s).0 ≡ claimed
      → st ≡ claimed
  unfolding advance
  advance_crowded k j now waiting s d m q e = absurd (clear-ne s _ e)
  advance_crowded k j now cleared s d m q e =
      absurd (check-ne now (nodes.count (is_active_other now k) s) e)
  advance_crowded k j now (checked t) s d m q e = absurd (register-ne t s _ e)
  advance_crowded k j now (registered t retry changed) s d m q e =
      absurd (crowded-verify t retry changed (nodes.count (is_rival t) s) many e)
    where
      many : (n : ℕ) → (nodes.count (is_rival t) s).0 ≡ some n → 2 ≤ n
      many n c =
          subst (λ x. 2 ≤ x) (sym (effects.count_effect (is_rival t) s n c))
            (two_rivals begin t k j (nodes.documents s) d m.0 m.1 q)
  advance_crowded k j now conflict s d m q e = absurd (step_down-ne s _ e)
  advance_crowded k j now claimed s d m q e = e
  advance_crowded k j now refused s d m q e = e
  advance_crowded k j now failed s d m q e = e
