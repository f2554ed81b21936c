-- ===== src/Examples/Stores.antt =====
-- A Redis whose state is its contents, with jobs as their own data, and a MongoDB that is the
-- list of its documents.
use distributed_job_processo.Base.{
  String, ◌≡◌, refl, sym, ap, ◌∙◌, ◌≢◌, ◌↔◌, inl, inr, Bool, true, false, Option, some, List, [],
  ◌∷◌, ◌++◌, arith, str_eq, eq_iff, Bool-cases, filter, some-eq,
}
use native.Mathlib.Decide.{ℕ_discrete}
use distributed_job_processo.Job.{Job}
use distributed_job_processo.Queue.Server.{
  done, Codec, ReadsBack, Contents, Blocking, timeout, element, Redis, push_left, remove, without,
  run_commands, due, Effects, Answers,
}
use distributed_job_processo.Storage.Nodes
use distributed_job_processo.Storage.Nodes.{
  NodeInfo, Nodes, update_where, has_id, upsert_in, count_in,
}

pub String-discrete : Discrete String
String-discrete s t = elim (Bool-cases (str_eq s t)) [
  | inl e ↦ yes ((eq_iff s t).0 e)
  | inr e ↦ no (λ same. ground (arith, (eq_iff s t).1 same))
]

Job-discrete : Discrete Job
Job-discrete = hlevel (ℕ_discrete, String-discrete)

abbrev pub is_yes : {A : Type 0} → Dec A → Bool
is_yes (yes _) = true
is_yes (no _) = false

pub is_yes_iff : {A : Type 0} (d : Dec A) → (is_yes d ≡ true) ↔ A
is_yes_iff (yes a) = (λ _. a, λ _. refl)
is_yes_iff (no n) = (λ e. ground arith, λ a. absurd (n a))

pub same_job : Job → Job → Bool
same_job a b = is_yes (Job-discrete a b)

abbrev pub plain_codec : Codec Job
plain_codec = record { marshal = some; unmarshal = some }

pub plain_codec-ReadsBack : ReadsBack plain_codec
plain_codec-ReadsBack = record { read_back = λ j d e. sym e }

-- What stands before the last element, and the last element.
abbrev split_last : Job → List Job → List Job × Job
split_last x [] = ([], x)
split_last x (y ∷ ys) = (x ∷ (split_last y ys).0, (split_last y ys).1)

split_last-eq : (x : Job) (xs : List Job) → x ∷ xs ≡ (split_last x xs).0 ++ (split_last x xs).1 ∷ []
split_last-eq x [] = refl
split_last-eq x (y ∷ ys) = ap (λ l. x ∷ l) (split_last-eq y ys)

abbrev take_right : Contents Job → List Job → Blocking (Contents Job) Job
take_right c [] = timeout
take_right c (x ∷ xs) = element (split_last x xs).1 (record c { queue = (split_last x xs).0 })

abbrev pub list_redis : Redis (Contents Job) Job
list_redis = record {
  lpush = λ k d c. done (push_left k d c);
  lrem = λ k d c. done (remove same_job k d c);
  brpop = λ c. take_right c c.queue;
  zadd = λ n d c. done (record c { delayed = (d, n) ∷ without same_job d c.delayed });
  zrange_by_score = λ n c. some (due n c.delayed);
  exec = λ cs c. (run_commands same_job c cs, true);
  contents = λ c. c;
  same = same_job;
}

element-eq : (d e : Job) (c c' : Contents Job) → element d c ≡ element e c' → (d ≡ e) × (c ≡ c')
element-eq d e c c' h = (cc, cc)

take_right-effect :
    (l : List Job) (c c' : Contents Job) (d : Job)
    → take_right c l ≡ element d c'
    → (q : List Job) × (l ≡ q ++ d ∷ []) × (c' ≡ record c { queue = q })
take_right-effect [] c c' d e = absurd (ground arith)
take_right-effect (x ∷ xs) c c' d e =
    let (same_last, same_rest) =
      element-eq (split_last x xs).1 d (record c { queue = (split_last x xs).0 }) c' e in
    (
      (split_last x xs).0,
      split_last-eq x xs ∙ ap (λ y. (split_last x xs).0 ++ y ∷ []) same_last,
      sym same_rest,
    )

take_right-answers :
    (l : List Job) (c : Contents Job)
    → l ≢ []
    → (d : Job) × (c' : Contents Job) × (take_right c l ≡ element d c')
take_right-answers [] c h = absurd (h refl)
take_right-answers (x ∷ xs) c h = (_, _, refl)

exec-eq : (a b : Contents Job) → ◌≡◌ {A = Contents Job × Bool} (a, true) (b, true) → a ≡ b
exec-eq a b e = cc

pub same_job_iff : (a b : Job) → (same_job a b ≡ true) ↔ (a ≡ b)
unfolding same_job Job-discrete
same_job_iff a b = is_yes_iff (Job-discrete a b)

pub list_redis-Effects : Effects list_redis
list_redis-Effects = record {
  lpush_effect = λ k d s s' e. sym e;
  lrem_effect = λ k d s s' e. sym e;
  brpop_effect = λ s s' d e. take_right-effect s.queue s s' d e;
  zadd_effect = λ n d s s' e. ([], without same_job d s.delayed, refl, sym e);
  zrange_effect = λ n s ds e. sym (some-eq _ _ e);
  exec_effect = λ cs s s' e. sym (exec-eq _ _ e);
  same_iff = same_job_iff;
}

pub list_redis-Answers : Answers list_redis
list_redis-Answers = record {
  lpush_answers = λ k d s. (_, refl);
  lrem_answers = λ k d s. (_, refl);
  brpop_answers = λ s h. take_right-answers s.queue s h;
  zadd_answers = λ n d s. (_, refl);
  zrange_answers = λ n s. (_, refl);
  exec_answers = λ cs s. refl;
}

abbrev pub list_nodes : Nodes (List NodeInfo)
list_nodes = record {
  update_many = λ test set s. some (update_where test set s);
  count = λ test s. (some (count_in test s), s);
  upsert = λ id set s. some (true, upsert_in id set s);
  update_one = λ id set s. some (update_where (has_id id) set s);
  find = λ test s. some (filter test s);
  documents = λ s. s;
}

upsert-eq :
    (a : List NodeInfo) (changed : Bool) (b : List NodeInfo)
    → ◌≡◌ {A = Option (Bool × List NodeInfo)} (some (true, a)) (some (changed, b))
    → a ≡ b
upsert-eq a changed b e = cc

pub list_nodes-Effects : Nodes.Effects list_nodes
list_nodes-Effects = record {
  update_many_effect = λ test set s s' e. sym (some-eq _ _ e);
  count_keeps = λ test s. refl;
  count_effect = λ test s n e. sym (some-eq _ _ e);
  upsert_effect = λ id set s changed s' e. sym (upsert-eq _ _ _ e);
  update_one_effect = λ id set s s' e. sym (some-eq _ _ e);
  find_effect = λ test s ns e. sym (some-eq _ _ e);
}

pub list_nodes-Answers : Nodes.Answers list_nodes
list_nodes-Answers = record {
  update_many_answers = λ test set s. (_, refl);
  count_answers = λ test s. (_, refl);
  upsert_answers = λ id set s. (true, _, refl, λ h. refl);
}
