-- ===== src/Cache/Redis.antt =====
-- The Redis server and the pickling that slurmweb/cache.py calls.
use slurm_web_plus.Prelude.{ℕ, String, Bool, true, Option, none, some, ◌≡◌, ◌≢◌, ◌⊎◌}

-- `lookup` is what the server holds. A command says whether it was acknowledged, which it is not where
-- the client raises a `ConnectionError` or a `ResponseError`, and gives the new content either way: a
-- command can be lost before it or after it. Values may expire at any time, so the laws say only what a
-- value that is found can be. `is_none` is the interpreter's test `value is None`.
pub record Redis : Type 1 where
  pub Db : Type 0
  pub Bytes : Type 0
  pub Value : Type 0
  pub dumps : Value → Bytes
  pub loads : Bytes → Value
  pub is_none : Value → Bool
  pub lookup : String → Db → Option Bytes
  pub get : String → Db → Option (Option Bytes)
  pub set : String → Bytes → ℕ → Db → Bool × Db
  pub delete : String → Db → Bool × Db
  pub incr : String → Db → Bool × Db
  pub sadd : String → String → Db → Bool × Db
  pub loads-dumps : (v : Value) → loads (dumps v) ≡ v
  pub get_lookup : (k : String) (d : Db) (b : Bytes) → get k d ≡ some (some b) → lookup k d ≡ some b
  pub set_lookup :
      (k j : String) (v : Bytes) (n : ℕ) (d : Db) (b : Bytes)
      → lookup j (set k v n d).1 ≡ some b
      → (lookup j d ≡ some b) ⊎ ((j ≡ k) × (b ≡ v))
  pub delete_lookup :
      (k j : String) (d : Db) (b : Bytes) → lookup j (delete k d).1 ≡ some b → lookup j d ≡ some b
  pub delete_done : (k : String) (d : Db) → (delete k d).0 ≡ true → lookup k (delete k d).1 ≡ none
  pub incr_lookup :
      (k j : String) (d : Db) (b : Bytes)
      → k ≢ j
      → lookup j (incr k d).1 ≡ some b
      → lookup j d ≡ some b
  pub sadd_lookup :
      (k m j : String) (d : Db) (b : Bytes)
      → k ≢ j
      → lookup j (sadd k m d).1 ≡ some b
      → lookup j d ≡ some b
