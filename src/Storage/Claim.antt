-- ===== src/Storage/Claim.antt =====
-- `AtomicClaimLeadership` of internal/storage/mongodb.go, one access to the database at a time,
-- so that the claims of several nodes can be interleaved.
pub mod Exclusion
pub mod Window
pub mod Ending
use distributed_job_processo.Base.{
  ℕ, ◌+◌, String, Bool, true, false, not, ◌&&◌, Option, none, some, List, [], ◌∷◌, str_eq, ltb, leb,
  ◌==◌, if◌then◌else◌,
}
use distributed_job_processo.Storage.Nodes.{NodeInfo, Nodes}

-- Where a claim stands, with its live locals: `now` of step 2, the retries of step 4, and whether
-- the registration changed a document.
pub data Stage : Type 0 where
  waiting : Stage  -- before step 1
  cleared : Stage  -- before step 2
  checked : (now : ℕ) → Stage  -- before step 3
  registered : (now retry : ℕ) (changed : Bool) → Stage  -- before a round of step 4
  conflict : Stage  -- before the update that steps down
  claimed : Stage  -- returned (true, nil)
  refused : Stage  -- returned (false, nil)
  failed : Stage  -- returned an error

abbrev pub clear_leader : NodeInfo → NodeInfo
clear_leader n = record n { is_leader = false }

-- Step 1: leaders not seen for ten seconds.
abbrev pub is_stale : ℕ → NodeInfo → Bool
is_stale now n = n.is_leader && ltb (n.last_seen + 10_000) now

-- Step 2: other leaders seen in the last three seconds.
abbrev pub is_active_other : ℕ → String → NodeInfo → Bool
is_active_other now id n = n.is_leader && leb now (n.last_seen + 3_000) && not (str_eq n.id id)

-- Step 3
abbrev pub set_leader : ℕ → ℕ → NodeInfo → NodeInfo
set_leader now term old = record old {
  address = "localhost:8080";
  is_leader = true;
  last_seen = now;
  worker_count = 10;
  version = "1.0.0";
  term = term;
}

-- Step 4: leaders seen in the last two seconds before `now`, this node included.
abbrev pub is_rival : ℕ → NodeInfo → Bool
is_rival now n = n.is_leader && leb now (n.last_seen + 2_000)

module _ {S : Type 0} where
  abbrev pub after_clear : S → Option S → Stage × S
  after_clear s none = (failed, s)
  after_clear s (some s') = (cleared, s')

  abbrev pub after_check : ℕ → Option ℕ × S → Stage × S
  after_check now (none, s) = (failed, s)
  after_check now (some n, s) = (if ltb 0 n then refused else checked now, s)

  abbrev pub after_register : ℕ → S → Option (Bool × S) → Stage × S
  after_register now s none = (failed, s)
  after_register now s (some (changed, s')) = (registered now 0 changed, s')

  -- An error is tolerated in the rounds 0 and 1.
  abbrev pub after_verify : ℕ → ℕ → Bool → Option ℕ × S → Stage × S
  after_verify now retry changed (none, s) =
      (if retry == 2 then failed else registered now (retry + 1) changed, s)
  after_verify now retry changed (some n, s) =
      (if ltb 1 n then conflict else if changed then claimed else refused, s)

  abbrev pub after_step_down : S → Option S → Stage × S
  after_step_down s none = (failed, s)
  after_step_down s (some s') = (refused, s')

module _ {S : Type 0} (nodes : Nodes S) (id : String) (term : ℕ) where
  -- One access; `now` is the reading of the clock before it, which the first two use.
  unfoldable pub advance : (now : ℕ) → Stage → S → Stage × S
  advance now waiting s = after_clear s (nodes.update_many (is_stale now) clear_leader s)
  advance now cleared s = after_check now (nodes.count (is_active_other now id) s)
  advance now (checked t) s = after_register t s (nodes.upsert id (set_leader t term) s)
  advance now (registered t retry changed) s =
      after_verify t retry changed (nodes.count (is_rival t) s)
  advance now conflict s = after_step_down s (nodes.update_one id clear_leader s)
  advance now claimed s = (claimed, s)
  advance now refused s = (refused, s)
  advance now failed s = (failed, s)

  -- A claim that runs alone, with the clock readings of its accesses.
  unfoldable pub claim_from : List ℕ → Stage × S → Stage × S
  claim_from [] p = p
  claim_from (now ∷ later) p = claim_from later (advance now p.0 p.1)
