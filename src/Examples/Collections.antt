-- ===== src/Examples/Collections.antt =====
-- A collection of jobs that is the list of its documents, with unique ids.
use distributed_job_processo.Base.{
  ℕ, ◌≡◌, refl, sym, ap, Option, none, some, List, [], ◌∷◌, arith, some-eq,
}
use distributed_job_processo.Base.{some-eq}
use distributed_job_processo.Job.{Job}
use distributed_job_processo.Storage.Jobs.{Collection}
use distributed_job_processo.Storage.Documents.{
  stored, set_fields, find_id, update_id, delete_id, matches_in, DistinctIds, Documented, Responds,
  set_fields-id,
}
use distributed_job_processo.Storage.Unique.{DistinctIds-update, DistinctIds-delete}

pub record Documents : Type 0 where
  pub items : List Job
  pub distinct : DistinctIds items

pub stored-Distinct :
    (j : Job) (m : Documents) → find_id j.id m.items ≡ none → DistinctIds (stored j ∷ m.items)
unfolding stored
stored-Distinct j m h = (h, m.distinct)

abbrev pub inserted :
    (j : Job) (m : Documents) (o : Option Job) → find_id j.id m.items ≡ o → Option Documents
inserted j m none e = some (record { items = stored j ∷ m.items; distinct = stored-Distinct j m e })
inserted j m (some i) e = none

abbrev pub list_jobs : Collection Documents
list_jobs = record {
  insert_one = λ j m. inserted j m (find_id j.id m.items) refl;
  update_one = λ id j m. some (
    matches_in id m.items,
    record {
      items = update_id id (set_fields j) m.items;
      distinct = DistinctIds-update id (set_fields j) m.items (set_fields-id j) m.distinct;
    },
  );
  find_one = λ id m. some (find_id id m.items);
  delete_one = λ id m. some (
    matches_in id m.items,
    record { items = delete_id id m.items; distinct = DistinctIds-delete id m.items m.distinct },
  );
}

pub inserted-effect :
    (j : Job) (m : Documents) (o : Option Job) (e : find_id j.id m.items ≡ o) (m' : Documents)
    → inserted j m o e ≡ some m'
    → (find_id j.id m.items ≡ none) × (m'.items ≡ stored j ∷ m.items)
inserted-effect j m none e m' h = (e, sym (ap (λ (d : Documents). d.items) (some-eq _ m' h)))
inserted-effect j m (some i) e m' h = ground arith

inserted-responds :
    (j : Job) (m : Documents) (o : Option Job) (e : find_id j.id m.items ≡ o)
    → o ≡ none
    → (m' : Documents) × (inserted j m o e ≡ some m')
inserted-responds j m none e h = (_, refl)
inserted-responds j m (some i) e h = ground arith

pub counted-eq :
    (n k : ℕ) (m m' : Documents)
    → ◌≡◌ {A = Option (ℕ × Documents)} (some (n, m)) (some (k, m'))
    → (k ≡ n) × (m'.items ≡ m.items)
counted-eq n k m m' e = (cc, cc)

unfoldable pub list_jobs-Documented : Documented list_jobs
list_jobs-Documented = record {
  documents = λ m. m.items;
  insert_effect = λ j m m' h. inserted-effect j m _ refl m' h;
  update_effect = λ id j m n m' h. counted-eq _ n _ m' h;
  find_effect = λ id m o h. sym (some-eq _ o h);
  delete_effect = λ id m n m' h. counted-eq _ n _ m' h;
  unique = λ m. m.distinct;
}

pub list_jobs-Responds : Responds list_jobs list_jobs-Documented.documents
unfolding list_jobs-Documented
list_jobs-Responds = record {
  insert_responds = λ j m h. inserted-responds j m _ refl h;
  update_responds = λ id j m. (_, _, refl);
  find_responds = λ id m. (_, refl);
  delete_responds = λ id m. (_, _, refl);
}

abbrev pub no_documents : Documents
no_documents = record { items = []; distinct = tt }
