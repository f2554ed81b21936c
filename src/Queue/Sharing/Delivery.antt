-- ===== src/Queue/Sharing/Delivery.antt =====
-- Several workers over one Redis: an entry that was accepted can still come to a worker.
use distributed_job_processo.Base.{
  ℕ, ◌≡◌, ◌↔◌, ◌⊎◌, Bool, true, false, List, [], ◌∷◌, ◌++◌, leb, Member,
}

module _ {D : Type 0} where
  -- A queue read from its right end.
  abbrev backwards : List D → List D
  backwards [] = []
  backwards (x ∷ r) = backwards r ++ x ∷ []

  module _ (same : D → D → Bool) (same_iff : (a b : D) → (same a b ≡ true) ↔ (a ≡ b)) where
    -- The entry is not due, or it is one of these.
    abbrev LaterOr : ℕ → List D → D × ℕ → Type 0
    LaterOr n ds m = (leb m.1 n ≡ false) ⊎ Member m.0 ds
