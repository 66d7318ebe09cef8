-- ===== src/Cache/Writes.antt =====
-- A write that succeeds has removed the values that it may have changed.
use slurm_web_plus.Prelude.{
  String, Bool, true, false, List, [], ◌∷◌, ◌==◌, elem, some, ◌≡◌, ◌≢◌, inl, inr, refl, sym, subst,
  ◌∙◌, arith, eq_iff, Bool-cases,
}
use slurm_web_plus.Prelude.Result.{Result, ok, err}
use slurm_web_plus.Slurmrestd.Response.{Error}
use slurm_web_plus.Cache.Redis.{Redis}
use slurm_web_plus.Cache.Service.{
  CacheKey, Failure, cache_error, Act, either_act, acknowledged, command, and_then, forget,
}
use slurm_web_plus.Cache.Keys.{Read, key_of, Settings, Write, keys_of}
use slurm_web_plus.Cache.Affects.{affects, affects-keys_of}
use slurm_web_plus.Cache.Cached.{return, forget_all, invalidate_cached_keys, write}
use slurm_web_plus.Cache.Coherence.{mains, World, IsCoherent}

module _ (redis : Redis) where
  open redis use {Db, Bytes, Value, loads, lookup, delete, delete_lookup, delete_done}

  -- The keys are gone, and no value is new.
  record IsForgotten (keys : List CacheKey) (d d' : Db) : Type 0 where
    gone : (k : String) (b : Bytes) → elem k (mains keys) ≡ true → lookup k d' ≢ some b
    kept : (k : String) (b : Bytes) → lookup k d' ≡ some b → lookup k d ≡ some b

  -- A chain that succeeds has succeeded in both parts.
  and_then-eq-ok :
      {B : Type 0} (m : Act redis (Unit {0})) (k : Act redis B) (d : Db) (x : B)
      → (and_then redis m k d).0 ≡ ok x
      → ((m d).0 ≡ ok tt) × ((k (m d).1).0 ≡ ok x) × ((and_then redis m k d).1 ≡ (k (m d).1).1)
  unfolding and_then
  and_then-eq-ok {B} m k d x h = step (m d).0 h
    where
      step :
          (r : Result Failure (Unit {0}))
          → (either_act redis r (m d).1 k).0 ≡ ok x
          → (r ≡ ok tt)
            × ((k (m d).1).0 ≡ ok x)
            × ((either_act redis r (m d).1 k).1 ≡ (k (m d).1).1)
      step (ok tt) e = (refl, e, refl)
      step (err f) e = cc (e)

  forget_done :
      (key : CacheKey) (d : Db) → (forget redis key d).0 ≡ ok tt → (delete key.main d).0 ≡ true
  unfolding forget command
  forget_done key d h = step (delete key.main d).0 h
    where
      step : (b : Bool) → acknowledged redis cache_error b ≡ ok tt → b ≡ true
      step true e = refl
      step false e = cc (e)

  forget_all-IsForgotten :
      (keys : List CacheKey) (d : Db)
      → (forget_all redis keys d).0 ≡ ok tt
      → IsForgotten keys d (forget_all redis keys d).1
  unfolding forget_all elem forget command
  forget_all-IsForgotten [] d h = record { gone = λ k b e f. cc (e); kept = λ k b e. e }
  forget_all-IsForgotten (key ∷ keys) d h =
      let (first, rest, same) = and_then-eq-ok (forget redis key) (forget_all redis keys) d tt h in
      let ih = forget_all-IsForgotten keys (forget redis key d).1 rest in
      subst (IsForgotten (key ∷ keys) d) (sym same) (record {
        gone = λ k b e f. elim (Bool-cases (k == key.main)) [
          | inl here ↦ cc (
            delete_done key.main d (forget_done key d first),
            (eq_iff k key.main).0 here,
            ih.kept k b f,
          )
          | inr there ↦ ih.gone k b (ground (arith, e, there)) f
        ];
        kept = λ k b e. delete_lookup key.main k d b (ih.kept k b e);
      })

  -- The write has changed no answer but of the reads that show what it is about.
  abbrev pub Changes : Write → World redis → World redis → Type 0
  Changes w world world' = (r : Read) → affects w r ≡ false → world' r ≡ world r

  forgotten-IsCoherent :
      (w : Write) (world world' : World redis) (d d' : Db)
      → IsCoherent redis world d
      → Changes w world world'
      → IsForgotten (keys_of w) d d'
      → IsCoherent redis world' d'
  forgotten-IsCoherent w world world' d d' h changes f r b e =
      elim (Bool-cases (elem (key_of r).main (mains (keys_of w)))) [
        | inl invalid ↦ absurd (f.gone (key_of r).main b invalid e)
        | inr valid ↦ changes r (unaffected r valid) ∙ h r b (f.kept (key_of r).main b e)
      ]
    where
      unaffected :
          (r : Read) → elem (key_of r).main (mains (keys_of w)) ≡ false → affects w r ≡ false
      unaffected r valid = elim (Bool-cases (affects w r)) [
        | inl e ↦ cc (affects-keys_of w r e, valid)
        | inr e ↦ e
      ]

  -- If the cache is enabled and coherent, and a write that succeeds changes at most the answers of the
  -- reads that show what it is about (a job or node of its lists and of its own read, an account with
  -- its associations, an association with its account, user and QOS, a reservation), the cache is
  -- coherent with the new answers.
  pub write-IsCoherent :
      (s : Settings) (w : Write) (world world' : World redis) (result : Result Error Value)
      (v : Value) (d : Db)
      → s.enabled ≡ true
      → IsCoherent redis world d
      → Changes w world world'
      → (write redis s w result d).0 ≡ ok v
      → IsCoherent redis world' (write redis s w result d).1
  unfolding write invalidate_cached_keys
  write-IsCoherent s w world world' (err e) v d enabled h changes done = cc (done)
  write-IsCoherent s w world world' (ok u) v d enabled h changes done =
      let (first, _, same) =
        and_then-eq-ok (invalidate_cached_keys redis s.enabled (keys_of w)) (return redis u) d v
          done in
      subst (IsCoherent redis world') (sym same)
        (forgotten-IsCoherent w world world' d _ h changes (forgotten s.enabled enabled first))
    where
      forgotten :
          (b : Bool)
          → b ≡ true
          → (invalidate_cached_keys redis b (keys_of w) d).0 ≡ ok tt
          → IsForgotten (keys_of w) d (invalidate_cached_keys redis b (keys_of w) d).1
      forgotten true e f = forget_all-IsForgotten (keys_of w) d f
      forgotten false e f = cc (e)
