-- ===== src/Storage/Claim/Ending.antt =====
-- How many accesses a claim of internal/storage/mongodb.go makes.
use distributed_job_processo.Base.{
  ℕ, ◌-◌, ◌≤◌, String, ◌≡◌, refl, Bool, true, false, Option, none, some, List, [], ◌∷◌, arith,
  length,
}
use distributed_job_processo.Storage.Nodes.{Nodes}
use distributed_job_processo.Storage.Claim.{
  Stage, waiting, cleared, checked, registered, conflict, claimed, refused, failed, after_clear,
  after_check, after_register, after_verify, after_step_down, is_stale, is_active_other, is_rival,
  set_leader, clear_leader, advance, claim_from,
}

abbrev pub is_final : Stage → Bool
is_final claimed = true
is_final refused = true
is_final failed = true
is_final _ = false

-- The rounds of step 4 are 0, 1 and 2.
abbrev pub InRounds : Stage → Type 0
InRounds (registered _ retry _) = retry ≤ 2
InRounds _ = Unit

-- The most accesses that a claim still makes.
abbrev pub accesses_left : Stage → ℕ
accesses_left waiting = 7
accesses_left cleared = 6
accesses_left (checked _) = 5
accesses_left (registered _ retry _) = 4 - retry
accesses_left conflict = 1
accesses_left _ = 0

abbrev Shorter : Stage → Stage → Type 0
Shorter st next = InRounds next × (accesses_left next ≤ accesses_left st - 1)

module _ {S : Type 0} where
  Shorter-clear : (s : S) (o : Option S) → Shorter waiting (after_clear s o).0
  Shorter-clear s none = omega arith
  Shorter-clear s (some s') = omega arith

  Shorter-check : (now : ℕ) (p : Option ℕ × S) → Shorter cleared (after_check now p).0
  Shorter-check now (none, s) = omega arith
  Shorter-check now (some n, s) = ground arith

  Shorter-register :
      (t : ℕ) (s : S) (o : Option (Bool × S)) → Shorter (checked t) (after_register t s o).0
  Shorter-register t s none = omega arith
  Shorter-register t s (some (changed, s')) = omega arith

  Shorter-verify :
      (t retry : ℕ) (changed : Bool) (p : Option ℕ × S)
      → retry ≤ 2
      → Shorter (registered t retry changed) (after_verify t retry changed p).0
  Shorter-verify t retry changed (none, s) h = ground arith
  Shorter-verify t retry changed (some n, s) h = ground arith

  Shorter-step_down : (s : S) (o : Option S) → Shorter conflict (after_step_down s o).0
  Shorter-step_down s none = omega arith
  Shorter-step_down s (some s') = omega arith

module _ {S : Type 0} (nodes : Nodes S) (id : String) (term : ℕ) where
  Shorter-advance :
      (now : ℕ) (st : Stage) (s : S) → InRounds st → Shorter st (advance nodes id term now st s).0
  unfolding advance
  Shorter-advance now waiting s h =
      Shorter-clear s (nodes.update_many (is_stale now) clear_leader s)
  Shorter-advance now cleared s h = Shorter-check now (nodes.count (is_active_other now id) s)
  Shorter-advance now (checked t) s h = Shorter-register t s (nodes.upsert id (set_leader t term) s)
  Shorter-advance now (registered t retry changed) s h =
      Shorter-verify t retry changed (nodes.count (is_rival t) s) h
  Shorter-advance now conflict s h = Shorter-step_down s (nodes.update_one id clear_leader s)
  Shorter-advance now claimed s h = omega arith
  Shorter-advance now refused s h = omega arith
  Shorter-advance now failed s h = omega arith

  final_of : (st : Stage) → InRounds st → accesses_left st ≤ 0 → is_final st ≡ true
  final_of claimed h l = refl
  final_of (registered t retry changed) h l = absurd (omega arith)
  final_of _ h l = ground arith

  ends_from :
      (times : List ℕ) (p : Stage × S)
      → InRounds p.0
      → accesses_left p.0 ≤ length times
      → is_final (claim_from nodes id term times p).0 ≡ true
  unfolding claim_from
  ends_from [] p h l = final_of p.0 h l
  ends_from (now ∷ times) p h l =
      let (rounds, fewer) = Shorter-advance now p.0 p.1 h in
      ends_from times (advance nodes id term now p.0 p.1) rounds (omega arith)

  -- A claim makes seven accesses at most: from any database, whatever commands report errors, it
  -- has returned after seven.
  pub claim_ends :
      (times : List ℕ) (s : S)
      → 7 ≤ length times
      → is_final (claim_from nodes id term times (waiting, s)).0 ≡ true
  claim_ends times s h = ends_from times (waiting, s) tt h
