-- ===== src/Cache/Service.antt =====
-- `CacheKey` and `CachingService` of slurmweb/cache.py.
use slurm_web_plus.Prelude.{
  ℕ, String, Bool, true, false, ◌==◌, ◌&&◌, if◌then◌else◌, Option, none, some,
}
use slurm_web_plus.Prelude.Result.{Result, ok, err}
use slurm_web_plus.Slurmrestd.Response.{Error}
use slurm_web_plus.Cache.Redis.{Redis}
use Prim.Native.String

pub record CacheKey : Type 0 where
  pub main : String
  pub count : String

-- `CacheKey(main, count)`: without a count, or with an empty one, it is the main key.
abbrev pub count_or : String → Option String → String
count_or main none = main
count_or main (some count) = if count == "" then main else count

abbrev pub cache_key : String → Option String → CacheKey
cache_key main count = record { main = main; count = count_or main count }

-- `CacheKey.__eq__`.
unfoldable pub same_key : CacheKey → CacheKey → Bool
same_key k j = k.main == j.main && k.count == j.count

-- What a request with a cache can raise: the exceptions of the request, the `SlurmwebCacheError` of a
-- read or a write of the cache, and the Redis exceptions that the counting lets through.
pub data Failure : Type 0 where
  request : Error → Failure
  cache_error : Failure
  redis_error : Failure

module _ (redis : Redis) where
  open redis use {Db, Bytes, Value, dumps, loads, is_none, set, get, delete, incr, sadd}

  -- An action leaves the database that it has reached beside its result.
  abbrev pub Act : Type 0 → Type 0
  Act B = Db → Result Failure B × Db

  abbrev pub acknowledged : Failure → Bool → Result Failure (Unit {0})
  acknowledged failure true = ok tt
  acknowledged failure false = err failure

  -- A command that raises the given exception where it is not acknowledged.
  unfoldable pub command : Failure → (Db → Bool × Db) → Act (Unit {0})
  command failure f d = (acknowledged failure (f d).0, (f d).1)

  abbrev pub either_act :
      {B : Type 0} → Result Failure (Unit {0}) → Db → Act B → Result Failure B × Db
  either_act (ok u) d k = k d
  either_act (err e) d k = (err e, d)

  -- One action after another: an exception ends both.
  unfoldable pub and_then : {B : Type 0} → Act (Unit {0}) → Act B → Act B
  and_then m k d = either_act (m d).0 (m d).1 k

  unfoldable pub put : CacheKey → Value → ℕ → Act (Unit {0})
  unfolding command
  put key value expiration = command cache_error (set key.main (dumps value) expiration)

  -- `none` is Python's `None`: for no bytes, and for a `None` that has been stored.
  abbrev pub unpickled : Option Bytes → Option Value
  unpickled none = none
  unpickled (some bytes) = if is_none (loads bytes) then none else some (loads bytes)

  -- `CachingService.get`, which changes nothing.
  unfoldable pub fetch : CacheKey → Db → Result Failure (Option Value)
  fetch key d = elim (get key.main d) [ none ↦ err cache_error | some bytes ↦ ok (unpickled bytes) ]

  unfoldable pub forget : CacheKey → Act (Unit {0})
  unfolding command
  forget key = command cache_error (delete key.main)

  unfoldable pub count_miss : CacheKey → Act (Unit {0})
  unfolding command and_then
  count_miss key = and_then (command redis_error (sadd "cache-miss-keys" key.count)) (
      and_then (command redis_error (incr (String.◌++◌ "cache-miss-" key.count)))
        (command redis_error (incr "cache-miss-total")))

  unfoldable pub count_hit : CacheKey → Act (Unit {0})
  unfolding command and_then
  count_hit key = and_then (command redis_error (sadd "cache-hit-keys" key.count)) (
      and_then (command redis_error (incr (String.◌++◌ "cache-hit-" key.count)))
        (command redis_error (incr "cache-hit-total")))
