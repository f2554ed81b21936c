-- ===== src/Queue/Sharing/Places.antt =====
-- What the pipelines of several workers over one Redis have still to do.
use distributed_job_processo.Base.{ℕ, ◌≡◌, refl, sym, subst, ◌⊎◌, inl, inr, List, [], ◌∷◌, Member}
use native.Mathlib.Decide.{ℕ_discrete}
use mathlib.Core.Logic.{ite}
use distributed_job_processo.Queue.Server.{Command, push_job, remove_delayed}
use distributed_job_processo.Queue.Defs.{pipeline}
use distributed_job_processo.Queue.Sharing.{Shared, Place, idle, moving, holding, put}

module _ {D : Type 0} where
  -- A pipeline removes only entries that it has pushed before, or that fulfil P.
  abbrev pub Covered : (D → Type 0) → List (Command D) → Type 0
  Covered P [] = Unit
  Covered P (push_job d ∷ cs) = Covered (λ x. (x ≡ d) ⊎ P x) cs
  Covered P (remove_delayed d ∷ cs) = P d × Covered P cs

  Covered-mono :
      (P Q : D → Type 0) (cs : List (Command D))
      → ((x : D) → P x → Q x)
      → Covered P cs
      → Covered Q cs
  Covered-mono P Q [] h c = tt
  Covered-mono P Q (push_job d ∷ cs) h c =
      Covered-mono (λ x. (x ≡ d) ⊎ P x) (λ x. (x ≡ d) ⊎ Q x) cs
        (λ x p. elim p [ inl e ↦ inl e | inr q ↦ inr (h x q) ]) c
  Covered-mono P Q (remove_delayed d ∷ cs) h c = (h d c.0, Covered-mono P Q cs h c.1)

  pub pipeline-Covered : (P : D → Type 0) (ds : List D) → Covered P (pipeline ds)
  pipeline-Covered P [] = tt
  pipeline-Covered P (d ∷ ds) = (inl refl, pipeline-Covered (λ x. (x ≡ d) ⊎ P x) ds)

  -- The entry was put on the queue, or its LPUSH was refused.
  abbrev pub Settled : Shared D → D → Type 0
  Settled s d = Member d s.pushed ⊎ Member d s.refused

  abbrev pub CoveredAt : Shared D → Place D → Type 0
  CoveredAt s idle = Unit
  CoveredAt s (moving cs) = Covered (Settled s) cs
  CoveredAt s (holding d) = Unit

  pub Settled-push :
      (s : Shared D) (d x : D) → Settled s x → Member x (d ∷ s.pushed) ⊎ Member x s.refused
  Settled-push s d x (inl m) = inl (inr m)
  Settled-push s d x (inr m) = inr m

  pub Settled-refuse :
      (s : Shared D) (d x : D) → Settled s x → Member x s.pushed ⊎ Member x (d ∷ s.refused)
  Settled-refuse s d x (inl m) = inl m
  Settled-refuse s d x (inr m) = inr (inr m)

  pub CoveredAt-mono :
      (s t : Shared D)
      → ((x : D) → Settled s x → Settled t x)
      → (p : Place D) → CoveredAt s p
      → CoveredAt t p
  CoveredAt-mono s t h idle c = tt
  CoveredAt-mono s t h (moving cs) c = Covered-mono (Settled s) (Settled t) cs h c
  CoveredAt-mono s t h (holding d) c = tt

  pub CoveredAt-put :
      (s t : Shared D) (i : ℕ) (p : Place D)
      → ((x : D) → Settled s x → Settled t x)
      → ((j : ℕ) → CoveredAt s (s.place j))
      → CoveredAt t p
      → (j : ℕ) → CoveredAt t (put s.place i p j)
  CoveredAt-put s t i p h c new j =
      elim (ℕ_discrete i j) as (λ o. CoveredAt t (ite o p (s.place j))) [
        | yes e ↦ new
        | no e ↦ CoveredAt-mono s t h (s.place j) (c j)
      ]

  -- What is left of a pipeline whose first command was a push
  pub Covered-pushed :
      (P Q : D → Type 0) (d : D) (cs : List (Command D))
      → ((x : D) → P x → Q x)
      → Q d
      → Covered (λ x. (x ≡ d) ⊎ P x) cs
      → Covered Q cs
  Covered-pushed P Q d cs h q c =
      Covered-mono (λ x. (x ≡ d) ⊎ P x) Q cs
        (λ x p. elim p [ inl e ↦ subst Q (sym e) q | inr m ↦ h x m ]) c
