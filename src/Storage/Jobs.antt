-- ===== src/Storage/Jobs.antt =====
-- The job operations of internal/storage/mongodb.go. The collection is a parameter; a method
-- returns the job that its pointer argument ends with, the database and whether its error is nil.
use distributed_job_processo.Base.{
  ℕ, Bool, true, false, not, Option, none, some, str_eq, ◌==◌, if◌then◌else◌,
}
use distributed_job_processo.Job.{Job, status_pending, priority_normal}

-- What the code uses of the `jobs` collection: InsertOne, UpdateOne with `$set`, FindOne and
-- DeleteOne by id. `none` is an error of the driver; the number of matches comes with the state.
pub record Collection (M : Type 0) : Type 0 where
  pub insert_one : Job → M → Option M
  pub update_one : ℕ → Job → M → Option (ℕ × M)
  pub find_one : ℕ → M → Option (Option Job)
  pub delete_one : ℕ → M → Option (ℕ × M)

abbrev pub default_if {ℓ} : {A : Type ℓ} → Bool → A → A → A
default_if missing d x = if missing then d else x

-- The fields that `CreateJob` sets before it inserts; `new_id` is primitive.NewObjectID().
unfoldable pub with_defaults : (new_id now : ℕ) → Job → Job
with_defaults new_id now j = record j {
  id = default_if (j.id == 0) new_id j.id;
  created_at = now;
  updated_at = now;
  scheduled_at = default_if (j.scheduled_at == 0) now j.scheduled_at;
  status = default_if (str_eq j.status "") status_pending j.status;
  priority = default_if (j.priority == 0) priority_normal j.priority;
}

module _ {M : Type 0} (jobs : Collection M) where
  abbrev pub kept_or : M → Option M → M × Bool
  kept_or m none = (m, false)
  kept_or m (some m') = (m', true)

  unfoldable pub create_job : (new_id now : ℕ) → Job → M → Job × M × Bool
  unfolding with_defaults
  create_job new_id now j m =
      let j' = with_defaults new_id now j in
      let (m', created) = kept_or m (jobs.insert_one j' m) in (j', m', created)

  -- No match is an error as well.
  abbrev pub matched : M → Option (ℕ × M) → M × Bool
  matched m none = (m, false)
  matched m (some (n, m')) = (m', not (n == 0))

  unfoldable pub update_job : (now : ℕ) → Job → M → Job × M × Bool
  update_job now j m =
      let j' = record j { updated_at = now } in
      let (m', updated) = matched m (jobs.update_one j'.id j' m) in (j', m', updated)

  -- A missing document and an error of the driver are both errors here.
  abbrev found : Option (Option Job) → Option Job
  found none = none
  found (some o) = o

  unfoldable pub get_job : ℕ → M → Option Job
  get_job id m = found (jobs.find_one id m)

  unfoldable pub delete_job : ℕ → M → M × Bool
  delete_job id m = matched m (jobs.delete_one id m)
