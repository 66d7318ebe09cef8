-- ===== src/Cache/Fresh.antt =====
-- The value that a read through the cache returns.
use slurm_web_plus.Prelude.{
  ℕ, String, Bool, true, false, Option, none, some, ◌≡◌, ◌≢◌, refl, sym, ap, ◌∙◌, inl, inr,
  Option-cases, Bool-cases,
}
use slurm_web_plus.Prelude.Result.{Result, ok, err}
use slurm_web_plus.Slurmrestd.Response.{Error}
use slurm_web_plus.Cache.Redis.{Redis}
use slurm_web_plus.Cache.Service.{
  CacheKey, Failure, Act, either_act, command, and_then, put, fetch, count_miss, count_hit,
  unpickled,
}
use slurm_web_plus.Cache.Keys.{Read, key_of, Settings, expiration_of}
use slurm_web_plus.Cache.Cached.{return, on_miss, after_fetch, cached, read, lift}
use slurm_web_plus.Cache.Coherence.{World, IsCoherent}

module _ (redis : Redis) where
  open redis use {
    Db, Bytes, Value, dumps, loads, is_none, lookup, get, set, delete, incr, sadd, get_lookup,
  }

  value_injective : {v w : Value} → ◌≡◌ {A = Result Failure Value} (ok v) (ok w) → v ≡ w
  value_injective h = cc

  -- A chain that ends by returning a value returns no other.
  and_then-return :
      (m : Act redis (Unit {0})) (k : Act redis Value) (v w : Value) (d : Db)
      → ((e : Db) (u : Value) → (k e).0 ≡ ok u → w ≡ u)
      → (and_then redis m k d).0 ≡ ok v
      → w ≡ v
  unfolding and_then
  and_then-return m k v w d h e = step (m d).0 e
    where
      step : (r : Result Failure (Unit {0})) → (either_act redis r (m d).1 k).0 ≡ ok v → w ≡ v
      step (ok u) f = h (m d).1 v f
      step (err x) f = cc (f)

  on_miss_value :
      (key : CacheKey) (n : ℕ) (fresh : Result Error Value) (v : Value) (d : Db)
      → (on_miss redis key n fresh d).0 ≡ ok v
      → fresh ≡ ok v
  unfolding on_miss
  on_miss_value key n (err e) v d h = cc (h)
  on_miss_value key n (ok w) v d h = ap ok (
      and_then-return _ _ v w d (λ e u g. and_then-return _ _ u w e (λ f x y. value_injective y) g)
        h)

  -- A value that is fetched is that of the bytes that are held.
  fetch_value :
      (key : CacheKey) (v : Value) (d : Db)
      → fetch redis key d ≡ ok (some v)
      → (b : Bytes) × (lookup key.main d ≡ some b) × (v ≡ loads b)
  unfolding fetch
  fetch_value key v d h = elim (Option-cases (get key.main d)) [
    | inl e ↦ absurd (cc (rw (e, fetch) at h))
    | inr (o, e) ↦ found o e (rw (e, fetch) at h)
  ]
    where
      found :
          (o : Option Bytes)
          → get key.main d ≡ some o
          → ◌≡◌ {A = Result Failure (Option Value)} (ok (unpickled redis o)) (ok (some v))
          → (b : Bytes) × (lookup key.main d ≡ some b) × (v ≡ loads b)
      found none e f = absurd (cc (f))
      found (some b) e f = elim (Bool-cases (is_none (loads b))) [
        | inl gone ↦ cc (rw gone at f)
        | inr there ↦ (b, get_lookup key.main d b e, cc (rw there at f))
      ]

  module _ (world : World redis) (r : Read) (v : Value) (d : Db)
      (h : IsCoherent redis world d) where
    after_fetch_fresh :
        (n : ℕ) (found : Result Failure (Option Value))
        → fetch redis (key_of r) d ≡ found
        → (after_fetch redis (key_of r) n (world r) found d).0 ≡ ok v
        → world r ≡ ok v
    unfolding after_fetch
    after_fetch_fresh n (err e) f g = cc (g)
    after_fetch_fresh n (ok none) f g = on_miss_value (key_of r) n (world r) v d g
    after_fetch_fresh n (ok (some w)) f g =
        let (b, held, same) = fetch_value (key_of r) w d f in
        h r b held ∙ ap ok (sym same ∙ and_then-return _ _ v w d (λ e u y. value_injective y) g)

    cached_fresh :
        (enabled : Bool) (n : ℕ)
        → (cached redis enabled (key_of r) n (world r) d).0 ≡ ok v
        → world r ≡ ok v
    unfolding cached
    cached_fresh false n g = lifted (world r) g
      where
        lifted : (x : Result Error Value) → lift redis x ≡ ok v → x ≡ ok v
        lifted (ok w) e = ap ok (value_injective e)
        lifted (err w) e = cc (e)
    cached_fresh true n g = after_fetch_fresh n (fetch redis (key_of r) d) refl g

    -- What a read returns from a coherent cache is what slurmrestd answers.
    pub read_fresh : (s : Settings) → (read redis s r (world r) d).0 ≡ ok v → world r ≡ ok v
    unfolding read
    read_fresh s g = cached_fresh s.enabled (expiration_of s r) g

  -- The server answers and acknowledges every command; it refuses an expiration of 0.
  pub record IsUp : Type 0 where
    pub get_up : (k : String) (d : Db) → get k d ≡ some (lookup k d)
    pub set_up : (k : String) (b : Bytes) (n : ℕ) (d : Db) → n ≢ 0 → (set k b n d).0 ≡ true
    pub incr_up : (k : String) (d : Db) → (incr k d).0 ≡ true
    pub sadd_up : (k m : String) (d : Db) → (sadd k m d).0 ≡ true

  count_hit_up : (key : CacheKey) (d : Db) → IsUp → (count_hit redis key d).0 ≡ ok tt
  unfolding count_hit command and_then
  count_hit_up key d up = simp (up.sadd_up, up.incr_up)

  count_miss_up : (key : CacheKey) (d : Db) → IsUp → (count_miss redis key d).0 ≡ ok tt
  unfolding count_miss command and_then
  count_miss_up key d up = simp (up.sadd_up, up.incr_up)

  on_miss_up :
      (key : CacheKey) (n : ℕ) (v : Value) (d : Db)
      → IsUp
      → n ≢ 0
      → (on_miss redis key n (ok v) d).0 ≡ ok v
  unfolding on_miss put command and_then
  on_miss_up key n v d up h =
      rw (up.set_up key.main (dumps v) n d h, count_miss_up key (set key.main (dumps v) n d).1 up)
        refl

  on_hit_up :
      (key : CacheKey) (v : Value) (d : Db)
      → IsUp
      → (and_then redis (count_hit redis key) (return redis v) d).0 ≡ ok v
  unfolding and_then
  on_hit_up key v d up = rw (count_hit_up key d up) refl

  after_fetch_up :
      (world : World redis) (r : Read) (n : ℕ) (v : Value) (d : Db) (o : Option Bytes)
      → IsUp
      → IsCoherent redis world d
      → n ≢ 0
      → world r ≡ ok v
      → lookup (key_of r).main d ≡ o
      → (after_fetch redis (key_of r) n (world r) (ok (unpickled redis o)) d).0 ≡ ok v
  unfolding after_fetch
  after_fetch_up world r n v d none up h p answer e = rw answer (on_miss_up (key_of r) n v d up p)
  after_fetch_up world r n v d (some b) up h p answer e =
      let same : v ≡ loads b = cc (answer, h r b e) in
      elim (Bool-cases (is_none (loads b))) [
        | inl gone ↦ rw (gone, answer) (on_miss_up (key_of r) n v d up p)
        | inr there ↦ rw (there, same) (on_hit_up (key_of r) (loads b) d up)
      ]

  fetch_up :
      (key : CacheKey) (d : Db)
      → IsUp
      → fetch redis key d ≡ ok (unpickled redis (lookup key.main d))
  unfolding fetch
  fetch_up key d up = rw (up.get_up key.main d, fetch) refl

  cached_up :
      (enabled : Bool) (world : World redis) (r : Read) (n : ℕ) (v : Value) (d : Db)
      → IsUp
      → IsCoherent redis world d
      → n ≢ 0
      → world r ≡ ok v
      → (cached redis enabled (key_of r) n (world r) d).0 ≡ ok v
  unfolding cached
  cached_up false world r n v d up h p answer = rw answer
  cached_up true world r n v d up h p answer =
      rw (fetch_up (key_of r) d up, cached)
        (after_fetch_up world r n v d (lookup (key_of r).main d) up h p answer refl)

  -- While the server is up, a read from a coherent cache with an expiration that is not 0 returns what
  -- slurmrestd answers.
  pub read_up :
      (s : Settings) (world : World redis) (r : Read) (v : Value) (d : Db)
      → IsUp
      → IsCoherent redis world d
      → expiration_of s r ≢ 0
      → world r ≡ ok v
      → (read redis s r (world r) d).0 ≡ ok v
  unfolding read
  read_up s world r v d up h p answer =
      cached_up s.enabled world r (expiration_of s r) v d up h p answer
