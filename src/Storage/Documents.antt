-- ===== src/Storage/Documents.antt =====
-- The documents of the `jobs` collection: what the driver's operations of Storage/Jobs do to
-- them, and what the methods of internal/storage/mongodb.go therefore do.
use distributed_job_processo.Base.{
  ℕ, ◌*◌, ◌/◌, ◌≡◌, refl, sym, ap, ◌∙◌, subst, ◌≢◌, inl, inr, true, false, not, Option, none, some,
  List, [], ◌∷◌, arith, str_eq, ◌==◌, if◌then◌else◌, Bool-cases, some-eq,
}
use distributed_job_processo.Job.{Job}
use distributed_job_processo.Storage.Jobs.{
  Collection, with_defaults, create_job, update_job, get_job, delete_job, kept_or, matched,
}

-- MongoDB keeps times in milliseconds.
abbrev pub to_ms : ℕ → ℕ
to_ms t = t / 1_000_000 * 1_000_000

abbrev to_ms_if : Option ℕ → Option ℕ
to_ms_if none = none
to_ms_if (some t) = some (to_ms t)

-- The document of a job.
unfoldable pub stored : Job → Job
stored j = record j {
  created_at = to_ms j.created_at;
  updated_at = to_ms j.updated_at;
  scheduled_at = to_ms j.scheduled_at;
  started_at = to_ms_if j.started_at;
  completed_at = to_ms_if j.completed_at;
}

abbrev or_time : Option ℕ → Option ℕ → Option ℕ
or_time none old = old
or_time (some t) old = some t

-- `$set` with the job as a document: the tags of four fields say `omitempty`, so an empty value
-- leaves what was there.
unfoldable pub set_fields : Job → Job → Job
unfolding stored
set_fields j old = record (stored j) {
  id = old.id;
  started_at = or_time (stored j).started_at old.started_at;
  completed_at = or_time (stored j).completed_at old.completed_at;
  worker_id = if str_eq j.worker_id "" then old.worker_id else j.worker_id;
  error = if str_eq j.error "" then old.error else j.error;
}

abbrev pub find_id : ℕ → List Job → Option Job
find_id id [] = none
find_id id (j ∷ js) = let rest = find_id id js in if j.id == id then some j else rest

abbrev pub update_id : ℕ → (Job → Job) → List Job → List Job
update_id id set [] = []
update_id id set (j ∷ js) =
    let rest = j ∷ update_id id set js in if j.id == id then set j ∷ js else rest

abbrev pub delete_id : ℕ → List Job → List Job
delete_id id [] = []
delete_id id (j ∷ js) = let rest = j ∷ delete_id id js in if j.id == id then js else rest

abbrev pub matches_in : ℕ → List Job → ℕ
matches_in id js = elim (find_id id js) [ none ↦ 0 | some _ ↦ 1 ]

-- Ids are unique in a collection.
abbrev pub DistinctIds : List Job → Type 0
DistinctIds [] = Unit
DistinctIds (j ∷ js) = (find_id j.id js ≡ none) × DistinctIds js

-- The documented effects; an insertion of an id that is there is an error.
pub record Documented {M : Type 0} (jobs : Collection M) : Type 0 where
  pub documents : M → List Job
  pub insert_effect :
      (j : Job) (m m' : M)
      → jobs.insert_one j m ≡ some m'
      → (find_id j.id (documents m) ≡ none) × (documents m' ≡ stored j ∷ documents m)
  pub update_effect :
      (id : ℕ) (j : Job) (m : M) (n : ℕ) (m' : M)
      → jobs.update_one id j m ≡ some (n, m')
      → (n ≡ matches_in id (documents m))
        × (documents m' ≡ update_id id (set_fields j) (documents m))
  pub find_effect :
      (id : ℕ) (m : M) (o : Option Job) → jobs.find_one id m ≡ some o → o ≡ find_id id (documents m)
  pub delete_effect :
      (id : ℕ) (m : M) (n : ℕ) (m' : M)
      → jobs.delete_one id m ≡ some (n, m')
      → (n ≡ matches_in id (documents m)) × (documents m' ≡ delete_id id (documents m))
  pub unique : (m : M) → DistinctIds (documents m)

-- A database that answers: no error but that of an id that is there.
pub record Responds {M : Type 0} (jobs : Collection M) (documents : M → List Job) : Type 0 where
  pub insert_responds :
      (j : Job) (m : M)
      → find_id j.id (documents m) ≡ none
      → (m' : M) × (jobs.insert_one j m ≡ some m')
  pub update_responds :
      (id : ℕ) (j : Job) (m : M) → (n : ℕ) × (m' : M) × (jobs.update_one id j m ≡ some (n, m'))
  pub find_responds : (id : ℕ) (m : M) → (o : Option Job) × (jobs.find_one id m ≡ some o)
  pub delete_responds :
      (id : ℕ) (m : M) → (n : ℕ) × (m' : M) × (jobs.delete_one id m ≡ some (n, m'))

pub find-update_self :
    (id : ℕ) (set : Job → Job) (js : List Job) (j : Job)
    → ((i : Job) → (set i).id ≡ i.id)
    → find_id id js ≡ some j
    → find_id id (update_id id set js) ≡ some (set j)
find-update_self id set [] j keeps h = ground arith
find-update_self id set (x ∷ js) j keeps h = elim (Bool-cases (x.id == id)) [
  | inl e ↦ rw e (
      ap (λ b. if b then some (set x) else find_id id js)
        (subst (λ n. (n == id) ≡ true) (sym (keeps x)) e)
      ∙ ap (λ y. some (set y))
          (some-eq x j (subst (λ b. (if b then some x else find_id id js) ≡ some j) e h)))
  | inr e ↦ rw e (
      rw e (
        find-update_self id set js j keeps
          (subst (λ b. (if b then some x else find_id id js) ≡ some j) e h)))
]

find-update_other :
    (id other : ℕ) (set : Job → Job) (js : List Job)
    → ((i : Job) → (set i).id ≡ i.id)
    → other ≢ id
    → find_id other (update_id id set js) ≡ find_id other js
find-update_other id other set [] keeps d = refl
find-update_other id other set (x ∷ js) keeps d = elim (Bool-cases (x.id == id)) [
  | inl e ↦ rw e (rw (keeps x, differ x.id e) refl)
  | inr e ↦
      rw e
        (ap (λ r. if x.id == other then some x else r) (find-update_other id other set js keeps d))
]
  where
    differ : (n : ℕ) → (n == id) ≡ true → (n == other) ≡ false
    differ n e = ground arith

find-delete_self : (id : ℕ) (js : List Job) → DistinctIds js → find_id id (delete_id id js) ≡ none
find-delete_self id [] u = refl
find-delete_self id (x ∷ js) u = elim (Bool-cases (x.id == id)) [
  | inl e ↦ rw e (subst (λ n. find_id n js ≡ none) (same x.id e) u.0)
  | inr e ↦ rw e (rw e (find-delete_self id js u.1))
]
  where
    same : (n : ℕ) → (n == id) ≡ true → n ≡ id
    same n e = ground arith

pub find-id : (id : ℕ) (js : List Job) (j : Job) → find_id id js ≡ some j → j.id ≡ id
find-id id [] j h = ground arith
find-id id (x ∷ js) j h = ground (arith, find-id id js j)

matches_found : (id : ℕ) (js : List Job) (j : Job) → find_id id js ≡ some j → matches_in id js ≡ 1
matches_found id js j h = rw (h, matches_in) refl

matches_none : (id : ℕ) (js : List Job) → find_id id js ≡ none → matches_in id js ≡ 0
matches_none id js h = rw (h, matches_in) refl

pub set_fields-id : (j i : Job) → (set_fields j i).id ≡ i.id
unfolding set_fields
set_fields-id j i = refl

module _ {M : Type 0} (jobs : Collection M) (effects : Documented jobs) where
  open effects use {documents}

  -- What `GetJob` returns without an error of the driver.
  pub get_job-eq :
      Responds jobs documents → (id : ℕ) (m : M) → get_job jobs id m ≡ find_id id (documents m)
  unfolding get_job
  get_job-eq answers id m =
      let (o, e) = answers.find_responds id m in rw e (effects.find_effect id m o e)

  -- `CreateJob` with a new id succeeds, and the job that it leaves in its argument is there.
  pub create_job-documents :
      Responds jobs documents
      → (new_id now : ℕ) (j : Job) (m : M)
      → find_id (with_defaults new_id now j).id (documents m) ≡ none
      → let (j', m', created) = create_job jobs new_id now j m in
        (j' ≡ with_defaults new_id now j)
        × (created ≡ true)
        × (documents m' ≡ stored j' ∷ documents m)
  unfolding create_job
  create_job-documents answers new_id now j m h =
      let (m', e) = answers.insert_responds (with_defaults new_id now j) m h in
      (
        refl,
        ap (λ o. (kept_or jobs m o).1) e,
        ap (λ o. documents (kept_or jobs m o).0) e ∙ (effects.insert_effect _ m m' e).1,
      )

  -- `UpdateJob` of a job that is there
  pub update_job-documents :
      Responds jobs documents
      → (now : ℕ) (j old : Job) (m : M) → find_id j.id (documents m) ≡ some old
      → let (j', m', updated) = update_job jobs now j m in
        (j' ≡ record j { updated_at = now })
        × (updated ≡ true)
        × (documents m' ≡ update_id j.id (set_fields j') (documents m))
  unfolding update_job
  update_job-documents answers now j old m h =
      let (n, m', e) = answers.update_responds j.id (record j { updated_at = now }) m in
      let (count, after) = effects.update_effect j.id _ m n m' e in
      (
        refl,
        ap (λ o. (matched jobs m o).1) e
            ∙ ap (λ k. not (k == 0)) (count ∙ matches_found j.id (documents m) old h),
        ap (λ o. documents (matched jobs m o).0) e ∙ after,
      )

  -- `DeleteJob` reports an error exactly if the job is not there, and it is not there afterwards.
  pub delete_job-documents :
      Responds jobs documents
      → (id : ℕ) (m : M)
      → let (m', deleted) = delete_job jobs id m in
        (deleted ≡ elim (find_id id (documents m)) [ none ↦ false | some _ ↦ true ])
        × (documents m' ≡ delete_id id (documents m))
        × (find_id id (documents m') ≡ none)
  unfolding delete_job
  delete_job-documents answers id m =
      let (n, m', e) = answers.delete_responds id m in
      let (count, after) = effects.delete_effect id m n m' e in
      let removed = ap (λ o. documents (matched jobs m o).0) e ∙ after in
      (
        ap (λ o. (matched jobs m o).1) e
            ∙ ap (λ k. not (k == 0)) count
            ∙ one_if (find_id id (documents m)),
        removed,
        ap (find_id id) removed ∙ find-delete_self id (documents m) (effects.unique m),
      )
    where
      one_if :
          (o : Option Job)
          → not (elim o [ none ↦ 0 | some _ ↦ 1 ] == 0) ≡ elim o [ none ↦ false | some _ ↦ true ]
      one_if none = refl
      one_if (some _) = refl
