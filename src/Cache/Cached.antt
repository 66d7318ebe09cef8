-- ===== src/Cache/Cached.antt =====
-- `_cached`, `_invalidate_cached_keys` and the methods of `SlurmrestdFilteredCached` that are made of
-- them.
use slurm_web_plus.Prelude.{ℕ, Bool, true, false, List, [], ◌∷◌, if◌then◌else◌, Option, none, some}
use slurm_web_plus.Prelude.Result.{Result, ok, err}
use slurm_web_plus.Slurmrestd.Response.{Error}
use slurm_web_plus.Cache.Redis.{Redis}
use slurm_web_plus.Cache.Service.{
  CacheKey, Failure, request, Act, and_then, put, fetch, forget, count_miss, count_hit,
}
use slurm_web_plus.Cache.Keys.{Read, key_of, Settings, expiration_of, Write, keys_of}

module _ (redis : Redis) where
  open redis use {Db, Value}

  abbrev pub lift : Result Error Value → Result Failure Value
  lift (ok v) = ok v
  lift (err e) = err (request e)

  abbrev pub return : {B : Type 0} → B → Act redis B
  return b d = (ok b, d)

  -- The request's answer is stored and counted; its exception goes through.
  unfoldable pub on_miss : CacheKey → ℕ → Result Error Value → Act redis Value
  on_miss key expiration (err e) d = (err (request e), d)
  on_miss key expiration (ok v) d =
      and_then redis (put redis key v expiration) (and_then redis (count_miss redis key) (return v))
        d

  -- `data` is what `service.get` has returned.
  unfoldable pub after_fetch :
      CacheKey → ℕ → Result Error Value → Result Failure (Option Value) → Act redis Value
  after_fetch key expiration fresh (err e) d = (err e, d)
  after_fetch key expiration fresh (ok none) d = on_miss key expiration fresh d
  after_fetch key expiration fresh (ok (some v)) d =
      and_then redis (count_hit redis key) (return v) d

  -- `fresh` is what the request gives if it is made.
  unfoldable pub cached : Bool → CacheKey → ℕ → Result Error Value → Act redis Value
  cached false key expiration fresh d = (lift fresh, d)
  cached true key expiration fresh d = after_fetch key expiration fresh (fetch redis key d) d

  unfoldable pub forget_all : List CacheKey → Act redis (Unit {0})
  forget_all [] d = (ok tt, d)
  forget_all (key ∷ keys) d = and_then redis (forget redis key) (forget_all keys) d

  unfoldable pub invalidate_cached_keys : Bool → List CacheKey → Act redis (Unit {0})
  invalidate_cached_keys enabled keys d = if enabled then forget_all keys d else (ok tt, d)

  -- The reading methods.
  unfoldable pub read : Settings → Read → Result Error Value → Act redis Value
  read s r fresh = cached s.enabled (key_of r) (expiration_of s r) fresh

  -- The writing methods: `result` is what the request gives; after an exception nothing is
  -- invalidated.
  unfoldable pub write : Settings → Write → Result Error Value → Act redis Value
  write s w (err e) d = (err (request e), d)
  write s w (ok result) d =
      and_then redis (invalidate_cached_keys s.enabled (keys_of w)) (return result) d
