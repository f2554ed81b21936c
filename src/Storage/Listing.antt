-- ===== src/Storage/Listing.antt =====
-- `GetJobs` of internal/storage/mongodb.go: a query with a filter, a page and an order.
pub mod Answers
use distributed_job_processo.Base.{
  ℕ, zero, suc, ◌≤◌, String, ◌≡◌, Bool, true, false, ◌&&◌, ◌||◌, Option, none, some, List, [], ◌∷◌,
  str_eq, leb, ◌==◌, if◌then◌else◌, filter, All, slt,
}
use mathlib.Core.List.{Permᴰ}
use distributed_job_processo.Job.{Job}

-- internal/storage/storage.go; the bounds are instants, the limit and the offset are int
-- patterns.
pub record JobFilter : Type 0 where
  pub status : List String
  pub type : String
  pub worker_id : String
  pub created_after : Option ℕ
  pub created_before : Option ℕ
  pub limit : ℕ
  pub offset : ℕ

-- `$in`
abbrev pub in_list : String → List String → Bool
in_list s [] = false
in_list s (x ∷ xs) = str_eq x s || in_list s xs

abbrev pub status_matches : List String → Job → Bool
status_matches [] j = true
status_matches (s ∷ ss) j = in_list j.status (s ∷ ss)

abbrev pub not_before : Option ℕ → ℕ → Bool
not_before none t = true
not_before (some bound) t = leb bound t

abbrev pub not_after : Option ℕ → ℕ → Bool
not_after none t = true
not_after (some bound) t = leb t bound

-- `mongoFilter` as a test of a document.
unfoldable pub matches : JobFilter → Job → Bool
matches f j =
    status_matches f.status j
    && (str_eq f.type "" || str_eq j.type f.type)
    && (str_eq f.worker_id "" || str_eq j.worker_id f.worker_id)
    && not_before f.created_after j.created_at
    && not_after f.created_before j.created_at

-- `options.Find()` with the limit (0: none), the skip and the order.
pub record FindOptions : Type 0 where
  pub limit : ℕ
  pub skip : ℕ
  pub newest_first : Bool

unfoldable pub find_options : JobFilter → FindOptions
find_options f = record {
  limit = if slt 0 f.limit then f.limit else 0;
  skip = if slt 0 f.offset then f.offset else 0;
  newest_first = true;
}

-- Find and the loop over its cursor: `none` if the query, a document or the cursor fails.
pub record Queries (M : Type 0) : Type 0 where
  pub find : (Job → Bool) → FindOptions → M → Option (List Job)

unfoldable pub get_jobs : {M : Type 0} → Queries M → JobFilter → M → Option (List Job)
unfolding matches find_options
get_jobs queries f m = queries.find (matches f) (find_options f) m

abbrev pub drop : ℕ → List Job → List Job
drop zero l = l
drop (suc n) [] = []
drop (suc n) (x ∷ l) = drop n l

abbrev pub take : ℕ → List Job → List Job
take zero l = []
take (suc n) [] = []
take (suc n) (x ∷ l) = x ∷ take n l

abbrev pub page : FindOptions → List Job → List Job
page o l = if o.limit == 0 then drop o.skip l else take o.limit (drop o.skip l)

abbrev pub NewestFirst : List Job → Type 0
NewestFirst [] = Unit
NewestFirst (j ∷ js) = All (λ i. i.created_at ≤ j.created_at) js × NewestFirst js

-- The documented effect, for an order by creation: a page of the matching documents in that
-- order.
pub record Finds {M : Type 0} (queries : Queries M) (documents : M → List Job) : Type 0 where
  pub find_effect :
      (test : Job → Bool) (o : FindOptions) (m : M) (l : List Job)
      → o.newest_first ≡ true
      → queries.find test o m ≡ some l
      → (ordered : List Job) × Permᴰ (filter test (documents m)) ordered
        × NewestFirst ordered
        × (l ≡ page o ordered)
