-- ===== src/Cache/Keys.antt =====
-- The reads and writes of `SlurmrestdFilteredCached`, the key of each read, and the keys that a write
-- invalidates.
use slurm_web_plus.Prelude.{ℕ, String, Bool, List, [], ◌∷◌, none, some}
use slurm_web_plus.Cache.Service.{CacheKey, cache_key}
use Prim.Native.String

-- The methods that read through the cache, called without query arguments. The number of a job is
-- given by its text.
pub data Read : Type 0 where
  jobs jobs_unfiltered nodes nodes_unfiltered partitions accounts associations reservations qos :
      Read
  job : (job_id : String) → Read
  node : (node_name : String) → Read

abbrev pub job_key : String → CacheKey
job_key job_id = cache_key (String.◌++◌ "job-" job_id) (some "individual-job")

abbrev pub node_key : String → CacheKey
node_key node_name = cache_key (String.◌++◌ "node-" node_name) (some "individual-node")

abbrev pub key_of : Read → CacheKey
key_of jobs = cache_key "jobs" none
key_of jobs_unfiltered = cache_key "jobs-unfiltered" (some "jobs")
key_of nodes = cache_key "nodes" none
key_of nodes_unfiltered = cache_key "nodes-unfiltered" (some "nodes")
key_of partitions = cache_key "partitions" none
key_of accounts = cache_key "accounts" none
key_of associations = cache_key "associations" none
key_of reservations = cache_key "reservations" none
key_of qos = cache_key "qos" none
key_of (job job_id) = job_key job_id
key_of (node node_name) = node_key node_name

-- The settings of the cache: whether it is enabled, and the expirations in seconds.
pub record Settings : Type 0 where
  pub enabled : Bool
  pub jobs : ℕ
  pub job : ℕ
  pub nodes : ℕ
  pub node : ℕ
  pub partitions : ℕ
  pub accounts : ℕ
  pub associations : ℕ
  pub reservations : ℕ
  pub qos : ℕ

abbrev pub expiration_of : Settings → Read → ℕ
expiration_of s jobs = s.jobs
expiration_of s jobs_unfiltered = s.jobs
expiration_of s nodes = s.nodes
expiration_of s nodes_unfiltered = s.nodes
expiration_of s partitions = s.partitions
expiration_of s accounts = s.accounts
expiration_of s associations = s.associations
expiration_of s reservations = s.reservations
expiration_of s qos = s.qos
expiration_of s (job job_id) = s.job
expiration_of s (node node_name) = s.node

-- The methods that write.
pub data Write : Type 0 where
  job_submit accounts_update account_delete users_update user_delete associations_update
        associations_delete :
      Write
  qos_update qos_delete reservation_create reservation_update reservation_delete : Write
  job_update : (job_id : String) → Write
  job_cancel : (job_id : String) → Write
  node_update : (node_name : String) → Write
  node_delete : (node_name : String) → Write

abbrev jobs_keys : List CacheKey → List CacheKey
jobs_keys rest = cache_key "jobs" none ∷ cache_key "jobs-unfiltered" (some "jobs") ∷ rest

abbrev nodes_keys : List CacheKey → List CacheKey
nodes_keys rest = cache_key "nodes" none ∷ cache_key "nodes-unfiltered" (some "nodes") ∷ rest

abbrev and_associations : String → List CacheKey
and_associations main = cache_key main none ∷ cache_key "associations" none ∷ []

abbrev pub keys_of : Write → List CacheKey
keys_of job_submit = jobs_keys []
keys_of (job_update job_id) = jobs_keys (job_key job_id ∷ [])
keys_of (job_cancel job_id) = jobs_keys (job_key job_id ∷ [])
keys_of (node_update node_name) = nodes_keys (node_key node_name ∷ [])
keys_of (node_delete node_name) = nodes_keys (node_key node_name ∷ [])
keys_of accounts_update = and_associations "accounts"
keys_of account_delete = and_associations "accounts"
keys_of users_update = cache_key "associations" none ∷ []
keys_of user_delete = cache_key "associations" none ∷ []
keys_of associations_update = and_associations "accounts"
keys_of associations_delete = and_associations "accounts"
keys_of qos_update = and_associations "qos"
keys_of qos_delete = and_associations "qos"
keys_of reservation_create = cache_key "reservations" none ∷ []
keys_of reservation_update = cache_key "reservations" none ∷ []
keys_of reservation_delete = cache_key "reservations" none ∷ []
