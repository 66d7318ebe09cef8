-- ===== src/Cache/Coherence.antt =====
-- What a read through the cache returns, and that writes keep the cache coherent.
use slurm_web_plus.Prelude.{
  ℕ, String, Bool, true, false, List, [], ◌∷◌, Option, none, some, ◌≡◌, inl, inr, refl, sym, ap,
  ◌∙◌,
}
use slurm_web_plus.Prelude.Result.{Result, ok, err}
use slurm_web_plus.Slurmrestd.Response.{Error}
use slurm_web_plus.Cache.Redis.{Redis}
use slurm_web_plus.Cache.Service.{
  CacheKey, Failure, redis_error, Act, command, either_act, and_then, put, fetch, count_miss,
  count_hit,
}
use slurm_web_plus.Cache.Keys.{Read, key_of, Settings, expiration_of}
use slurm_web_plus.Cache.Cached.{on_miss, after_fetch, cached, read}
use slurm_web_plus.Cache.Distinct.{key_of-injective, counter-ne-main, first_code, first_code-append}

-- The main texts of keys.
abbrev pub mains : List CacheKey → List String
mains [] = []
mains (key ∷ keys) = key.main ∷ mains keys

module _ (redis : Redis) where
  open redis use {
    Db, Bytes, Value, dumps, loads, lookup, get, set, delete, incr, sadd, loads-dumps, get_lookup,
    set_lookup, delete_lookup, delete_done, incr_lookup, sadd_lookup,
  }

  -- What slurmrestd answers to each read at some moment.
  abbrev pub World : Type 0
  World = Read → Result Error Value

  -- What is cached for a read is what slurmrestd answers.
  abbrev pub IsCoherent : World → Db → Type 0
  IsCoherent world d =
      (r : Read) (b : Bytes) → lookup (key_of r).main d ≡ some b → world r ≡ ok (loads b)

  -- The second database holds, for the reads, no value that the first does not hold.
  abbrev Shrinks : Db → Db → Type 0
  Shrinks d d' =
      (r : Read) (b : Bytes)
      → lookup (key_of r).main d' ≡ some b
      → lookup (key_of r).main d ≡ some b

  Shrinks-trans : (d d' d'' : Db) → Shrinks d d' → Shrinks d' d'' → Shrinks d d''
  Shrinks-trans d d' d'' h k r b e = h r b (k r b e)

  IsCoherent-Shrinks :
      (world : World) (d d' : Db) → IsCoherent world d → Shrinks d d' → IsCoherent world d'
  IsCoherent-Shrinks world d d' h k r b e = h r b (k r b e)

  -- A property that the first action reaches and the second keeps.
  reached-and_then :
      {B : Type 0} (P : Db → Type 0) (m : Act redis (Unit {0})) (k : Act redis B) (d : Db)
      → P (m d).1
      → ((e : Db) → P e → P (k e).1)
      → P (and_then redis m k d).1
  unfolding and_then
  reached-and_then {B} P m k d h keep = step (m d).0
    where
      step : (r : Result Failure (Unit {0})) → P (either_act redis r (m d).1 k).1
      step (ok u) = keep (m d).1 h
      step (err e) = h

  sadd-Shrinks : (k m : String) (d : Db) → first_code k ≡ 99 → Shrinks d (sadd k m d).1
  sadd-Shrinks k m d h r b e = sadd_lookup k m (key_of r).main d b (counter-ne-main k r h) e

  incr-Shrinks : (k : String) (d : Db) → first_code k ≡ 99 → Shrinks d (incr k d).1
  incr-Shrinks k d h r b e = incr_lookup k (key_of r).main d b (counter-ne-main k r h) e

  counting-Shrinks :
      (set_name count total : String) (count_key : CacheKey) (d : Db)
      → first_code set_name ≡ 99
      → first_code count ≡ 99
      → first_code total ≡ 99
      → Shrinks d
          (and_then redis
            (command redis redis_error (sadd set_name count_key.count))
            (and_then redis
              (command redis redis_error (incr count))
              (command redis redis_error (incr total)))
            d).1
  unfolding command
  counting-Shrinks set_name count total key d hs hc ht =
      reached-and_then (Shrinks d) _ _ d (sadd-Shrinks set_name key.count d hs) λ e he.
        reached-and_then (Shrinks d) _ _ e
          (Shrinks-trans d e (incr count e).1 he (incr-Shrinks count e hc))
          λ f hf. Shrinks-trans d f (incr total f).1 hf (incr-Shrinks total f ht)

  count_hit-Shrinks : (key : CacheKey) (d : Db) → Shrinks d (count_hit redis key d).1
  unfolding count_hit
  count_hit-Shrinks key d =
      counting-Shrinks "cache-hit-keys" _ "cache-hit-total" key d refl
        (first_code-append "c" "ache-hit-" key.count) refl

  count_miss-Shrinks : (key : CacheKey) (d : Db) → Shrinks d (count_miss redis key d).1
  unfolding count_miss
  count_miss-Shrinks key d =
      counting-Shrinks "cache-miss-keys" _ "cache-miss-total" key d refl
        (first_code-append "c" "ache-miss-" key.count) refl

  put-IsCoherent :
      (world : World) (r : Read) (v : Value) (n : ℕ) (d : Db)
      → IsCoherent world d
      → world r ≡ ok v
      → IsCoherent world (put redis (key_of r) v n d).1
  unfolding put command
  put-IsCoherent world r v n d h answer q b e =
      elim (set_lookup (key_of r).main (key_of q).main (dumps v) n d b e) [
        | inl old ↦ h q b old
        | inr (same, new) ↦
            ap world (key_of-injective q r same)
            ∙ answer
            ∙ ap ok (sym (loads-dumps v) ∙ ap loads (sym new))
      ]

  -- A miss stores what slurmrestd answers.
  on_miss-IsCoherent :
      (world : World) (r : Read) (n : ℕ) (fresh : Result Error Value) (d : Db)
      → world r ≡ fresh
      → IsCoherent world d
      → IsCoherent world (on_miss redis (key_of r) n fresh d).1
  unfolding on_miss
  on_miss-IsCoherent world r n (err e) d answer h = h
  on_miss-IsCoherent world r n (ok v) d answer h =
      reached-and_then (IsCoherent world) _ _ d (put-IsCoherent world r v n d h answer) λ e he.
        reached-and_then (IsCoherent world) _ _ e
          (IsCoherent-Shrinks world e _ he (count_miss-Shrinks (key_of r) e)) λ f hf. hf

  after_fetch-IsCoherent :
      (world : World) (r : Read) (n : ℕ) (found : Result Failure (Option Value)) (d : Db)
      → IsCoherent world d
      → IsCoherent world (after_fetch redis (key_of r) n (world r) found d).1
  unfolding after_fetch
  after_fetch-IsCoherent world r n (err e) d h = h
  after_fetch-IsCoherent world r n (ok none) d h = on_miss-IsCoherent world r n (world r) d refl h
  after_fetch-IsCoherent world r n (ok (some v)) d h =
      reached-and_then (IsCoherent world) _ _ d
        (IsCoherent-Shrinks world d _ h (count_hit-Shrinks (key_of r) d)) λ e he. he

  cached-IsCoherent :
      (enabled : Bool) (world : World) (r : Read) (n : ℕ) (d : Db)
      → IsCoherent world d
      → IsCoherent world (cached redis enabled (key_of r) n (world r) d).1
  unfolding cached
  cached-IsCoherent false world r n d h = h
  cached-IsCoherent true world r n d h =
      after_fetch-IsCoherent world r n (fetch redis (key_of r) d) d h

  -- A read keeps the cache coherent, whether it succeeds or fails.
  pub read-IsCoherent :
      (s : Settings) (world : World) (r : Read) (d : Db)
      → IsCoherent world d
      → IsCoherent world (read redis s r (world r) d).1
  unfolding read
  read-IsCoherent s world r d h = cached-IsCoherent s.enabled world r (expiration_of s r) d h
