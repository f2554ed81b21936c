-- ===== src/Storage/Nodes.antt =====
-- The `nodes` collection of internal/storage/mongodb.go: its documents, what the code uses of the
-- driver with the documented effects, `RegisterNode` and `GetNodes`. Times are in milliseconds,
-- the precision in which the driver writes them.
use distributed_job_processo.Base.{
  ℕ, suc, ◌+◌, String, ◌≡◌, ◌≢◌, Bool, true, false, Option, none, some, List, [], ◌∷◌, str_eq, leb,
  if◌then◌else◌, filter,
}

pub record NodeInfo : Type 0 where
  pub id : String
  pub address : String
  pub is_leader : Bool
  pub last_seen : ℕ
  pub worker_count : ℕ
  pub version : String
  pub term : ℕ

-- The document that an upsert starts from.
abbrev pub fresh : String → NodeInfo
fresh id = record {
  id = id;
  address = "";
  is_leader = false;
  last_seen = 0;
  worker_count = 0;
  version = "";
  term = 0;
}

-- UpdateMany, CountDocuments, UpdateOne by id with and without upsert, and Find. `none` is an
-- error, and changes nothing. An upsert tells whether it modified or inserted a document.
pub record Nodes (S : Type 0) : Type 0 where
  pub update_many : (NodeInfo → Bool) → (NodeInfo → NodeInfo) → S → Option S
  pub count : (NodeInfo → Bool) → S → Option ℕ × S
  pub upsert : String → (NodeInfo → NodeInfo) → S → Option (Bool × S)
  pub update_one : String → (NodeInfo → NodeInfo) → S → Option S
  pub find : (NodeInfo → Bool) → S → Option (List NodeInfo)
  pub documents : S → List NodeInfo

abbrev pub update_where : (NodeInfo → Bool) → (NodeInfo → NodeInfo) → List NodeInfo → List NodeInfo
update_where test set [] = []
update_where test set (n ∷ ns) = (if test n then set n else n) ∷ update_where test set ns

abbrev pub has_id : String → NodeInfo → Bool
has_id id n = str_eq n.id id

abbrev pub upsert_in : String → (NodeInfo → NodeInfo) → List NodeInfo → List NodeInfo
upsert_in id set [] = set (fresh id) ∷ []
upsert_in id set (n ∷ ns) =
    let rest = n ∷ upsert_in id set ns in if has_id id n then set n ∷ ns else rest

abbrev pub count_in : (NodeInfo → Bool) → List NodeInfo → ℕ
count_in test [] = 0
count_in test (n ∷ ns) = let rest = count_in test ns in if test n then suc rest else rest

-- The documented effects; ids are unique, so an update by id changes what has the id.
pub record Effects {S : Type 0} (nodes : Nodes S) : Type 0 where
  pub update_many_effect :
      (test : NodeInfo → Bool) (set : NodeInfo → NodeInfo) (s s' : S)
      → nodes.update_many test set s ≡ some s'
      → nodes.documents s' ≡ update_where test set (nodes.documents s)
  pub count_keeps :
      (test : NodeInfo → Bool) (s : S) → nodes.documents (nodes.count test s).1 ≡ nodes.documents s
  pub count_effect :
      (test : NodeInfo → Bool) (s : S) (n : ℕ)
      → (nodes.count test s).0 ≡ some n
      → n ≡ count_in test (nodes.documents s)
  pub upsert_effect :
      (id : String) (set : NodeInfo → NodeInfo) (s : S) (changed : Bool) (s' : S)
      → nodes.upsert id set s ≡ some (changed, s')
      → nodes.documents s' ≡ upsert_in id set (nodes.documents s)
  pub update_one_effect :
      (id : String) (set : NodeInfo → NodeInfo) (s s' : S)
      → nodes.update_one id set s ≡ some s'
      → nodes.documents s' ≡ update_where (has_id id) set (nodes.documents s)
  pub find_effect :
      (test : NodeInfo → Bool) (s : S) (ns : List NodeInfo)
      → nodes.find test s ≡ some ns
      → ns ≡ filter test (nodes.documents s)

-- The `$set` of `RegisterNode`; it leaves the term out.
unfoldable pub set_registration : (now : ℕ) → NodeInfo → NodeInfo → NodeInfo
set_registration now node old = record old {
  address = node.address;
  is_leader = node.is_leader;
  last_seen = now;
  worker_count = node.worker_count;
  version = node.version;
}

module _ {S : Type 0} (nodes : Nodes S) where
  abbrev pub after_upsert : S → Option (Bool × S) → S × Bool
  after_upsert s none = (s, false)
  after_upsert s (some (_, s')) = (s', true)

  -- The database, and whether the error is nil.
  unfoldable pub register_node : (now : ℕ) → NodeInfo → S → S × Bool
  unfolding set_registration
  register_node now node s = after_upsert s (nodes.upsert node.id (set_registration now node) s)

  -- Registrations of the last five minutes.
  unfoldable pub get_nodes : (now : ℕ) → S → Option (List NodeInfo)
  get_nodes now s = nodes.find (λ n. leb now (n.last_seen + 300_000)) s

-- A database that answers: no error, and an upsert that changes the documents says that it has
-- modified or inserted one.
pub record Answers {S : Type 0} (nodes : Nodes S) : Type 0 where
  pub update_many_answers :
      (test : NodeInfo → Bool) (set : NodeInfo → NodeInfo) (s : S)
      → (s' : S) × (nodes.update_many test set s ≡ some s')
  pub count_answers : (test : NodeInfo → Bool) (s : S) → (n : ℕ) × ((nodes.count test s).0 ≡ some n)
  pub upsert_answers :
      (id : String) (set : NodeInfo → NodeInfo) (s : S)
      → (changed : Bool) × (s' : S) × (nodes.upsert id set s ≡ some (changed, s'))
        × (upsert_in id set (nodes.documents s) ≢ nodes.documents s → changed ≡ true)
