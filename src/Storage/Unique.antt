-- ===== src/Storage/Unique.antt =====
-- Ids stay unique under the updates and deletions of Storage/Documents.
use distributed_job_processo.Base.{
  ℕ, ◌≡◌, refl, sym, ◌∙◌, subst, inl, inr, Bool, true, false, none, some, List, [], ◌∷◌, arith,
  ◌==◌, if◌then◌else◌, Bool-cases,
}
use distributed_job_processo.Job.{Job}
use distributed_job_processo.Storage.Documents.{find_id, update_id, delete_id, DistinctIds}

some-ne-none : {A : Type 0} (a : A) → some a ≡ none → ⊥
some-ne-none a e = cc

find_none-update :
    (k id : ℕ) (set : Job → Job) (js : List Job)
    → ((i : Job) → (set i).id ≡ i.id)
    → find_id k js ≡ none
    → find_id k (update_id id set js) ≡ none
find_none-update k id set [] keeps h = refl
find_none-update k id set (x ∷ js) keeps h = elim (Bool-cases (x.id == k)) [
  | inl e ↦ absurd (some-ne-none x (sym (rw e refl) ∙ h))
  | inr e ↦
      by_test (x.id == id) (find_none-update k id set js keeps (sym (rw e refl) ∙ h)) e
        (sym (rw e refl) ∙ h)
]
  where
    by_test :
        (a : Bool)
        → find_id k (update_id id set js) ≡ none
        → (x.id == k) ≡ false
        → find_id k js ≡ none
        → find_id k (if a then set x ∷ js else x ∷ update_id id set js) ≡ none
    by_test true rest e h = rw (keeps x, e) h
    by_test false rest e h = rw e rest

find_none-delete :
    (k id : ℕ) (js : List Job) → find_id k js ≡ none → find_id k (delete_id id js) ≡ none
find_none-delete k id [] h = refl
find_none-delete k id (x ∷ js) h = ground (arith, find_none-delete k id js)

pub DistinctIds-update :
    (id : ℕ) (set : Job → Job) (js : List Job)
    → ((i : Job) → (set i).id ≡ i.id)
    → DistinctIds js
    → DistinctIds (update_id id set js)
DistinctIds-update id set [] keeps u = tt
DistinctIds-update id set (x ∷ js) keeps u =
    by_test (x.id == id) (DistinctIds-update id set js keeps u.1)
  where
    by_test :
        (a : Bool)
        → DistinctIds (update_id id set js)
        → DistinctIds (if a then set x ∷ js else x ∷ update_id id set js)
    by_test true rest = (subst (λ n. find_id n js ≡ none) (sym (keeps x)) u.0, u.1)
    by_test false rest = (find_none-update x.id id set js keeps u.0, rest)

pub DistinctIds-delete : (id : ℕ) (js : List Job) → DistinctIds js → DistinctIds (delete_id id js)
DistinctIds-delete id [] u = tt
DistinctIds-delete id (x ∷ js) u = by_test (x.id == id) (DistinctIds-delete id js u.1)
  where
    by_test :
        (a : Bool)
        → DistinctIds (delete_id id js)
        → DistinctIds (if a then js else x ∷ delete_id id js)
    by_test true rest = u.1
    by_test false rest = (find_none-delete x.id id js u.0, rest)
