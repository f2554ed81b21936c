-- ===== src/Storage/Connecting.antt =====
-- internal/storage/mongodb.go: `NewMongoStorage` and the indexes it asks for. The calls of the
-- MongoDB driver are parameters.
use distributed_job_processo.Base.{
  ℕ, String, ◌≡◌, refl, Bool, true, false, Option, none, some, List, [], ◌∷◌, if◌then◌else◌,
}

-- A key of an index with its direction, and an index with its name.
pub record IndexKey : Type 0 where
  pub field : String
  pub direction : ℕ

pub record IndexModel : Type 0 where
  pub keys : List IndexKey
  pub name : String

abbrev pub jobs_collection : String
jobs_collection = "jobs"

abbrev pub nodes_collection : String
nodes_collection = "nodes"

abbrev ascending : String → IndexKey
ascending field = record { field = field; direction = 1 }

abbrev index : String → List IndexKey → IndexModel
index name keys = record { keys = keys; name = name }

-- The indexes of `createIndexes`.
abbrev pub indexes : List IndexModel
indexes =
    index "status_idx" (ascending "status" ∷ [])
    ∷ index "type_idx" (ascending "type" ∷ [])
    ∷ index "worker_id_idx" (ascending "worker_id" ∷ [])
    ∷ index "created_at_idx" (ascending "created_at" ∷ [])
    ∷ index "scheduled_at_idx" (ascending "scheduled_at" ∷ [])
    ∷ index "status_scheduled_idx" (ascending "status" ∷ ascending "scheduled_at" ∷ [])
    ∷ []

-- What the function uses of the driver: `Connect` within a timeout, `Ping`, `Collection` of a
-- database, and `CreateMany` of a collection's indexes; `none` and `false` are errors.
pub record Driver (Client Handle : Type 0) : Type 0 where
  pub connect : (uri : String) (timeout : ℕ) → Option Client
  pub ping : Client → Bool
  pub collection : Client → (database name : String) → Handle
  pub create_many : Handle → List IndexModel → Bool

-- `MongoStorage`
pub record MongoStorage (Client Handle : Type 0) : Type 0 where
  pub client : Client
  pub database : String
  pub jobs : Handle
  pub nodes : Handle

-- The results of `NewMongoStorage`; `indexed`: no error of `createIndexes` was logged.
pub data Opened (Client Handle : Type 0) : Type 0 where
  no_connection : Opened Client Handle
  no_answer : Opened Client Handle
  opened : MongoStorage Client Handle → (indexed : Bool) → Opened Client Handle

module _ {Client Handle : Type 0} (driver : Driver Client Handle) where
  -- `createIndexes`
  abbrev pub create_indexes : MongoStorage Client Handle → Bool
  create_indexes m = driver.create_many m.jobs indexes

  abbrev pub storage_of : (database : String) → Client → MongoStorage Client Handle
  storage_of database c = record {
    client = c;
    database = database;
    jobs = driver.collection c database jobs_collection;
    nodes = driver.collection c database nodes_collection;
  }

  abbrev pub after_connect : (database : String) → Option Client → Opened Client Handle
  after_connect database none = no_connection
  after_connect database (some c) =
      if driver.ping c
      then opened (storage_of database c) (create_indexes (storage_of database c))
      else no_answer

  -- `NewMongoStorage`
  unfoldable pub new_mongo_storage : (uri database : String) (timeout : ℕ) → Opened Client Handle
  new_mongo_storage uri database timeout = after_connect database (driver.connect uri timeout)

-- The error that `New` of the server tests is nil.
abbrev pub is_opened : {Client Handle : Type 0} → Opened Client Handle → Bool
is_opened no_connection = false
is_opened no_answer = false
is_opened (opened m indexed) = true

module _ {Client Handle : Type 0} (driver : Driver Client Handle) (uri database : String)
    (timeout : ℕ) where
  -- A client that connects and answers a ping is enough: the storage stands whether or not its
  -- indexes could be made.
  new_mongo_storage-answering :
      (c : Client)
      → driver.connect uri timeout ≡ some c
      → driver.ping c ≡ true
      → new_mongo_storage driver uri database timeout
        ≡ opened
            (storage_of driver database c)
            (create_indexes driver (storage_of driver database c))
  unfolding new_mongo_storage
  new_mongo_storage-answering c connected answers = (rw connected (rw answers refl))

  -- Without an answer there is no storage.
  new_mongo_storage-silent :
      (c : Client)
      → driver.connect uri timeout ≡ some c
      → driver.ping c ≡ false
      → is_opened (new_mongo_storage driver uri database timeout) ≡ false
  unfolding new_mongo_storage
  new_mongo_storage-silent c connected silent = (rw connected (rw silent refl))
