-- ===== src/Slurmrestd/Discovery/First.antt =====
-- Which version the discovery finds.
use slurm_web_plus.Prelude.{
  String, true, false, List, [], ◌∷◌, ◌++◌, Option, none, some, ◌≡◌, refl, sym, ap, ◌∙◌, arith, All,
  inl, inr, Bool-cases, Option-cases, subst,
}
use slurm_web_plus.Prelude.Result.{Result, ok, err, ◌>>=◌}
use slurm_web_plus.Slurmrestd.Response.{Error, connection, key_error, Reply, execute_request}
use slurm_web_plus.Slurmrestd.Discovery.{
  SlurmMeta, Ping, Client, Found, slurm_meta, cluster_of, keep, try_version, is_skipped,
  try_versions, after, known, discover, no_version,
}

-- What the ping of a version says, whatever the client knows already.
abbrev pub release_of : String → Option String → SlurmMeta → Result Error Found
release_of version hint o = elim o.release [
  | none ↦ err (key_error "release")
  | some release ↦ ok (cluster_of hint o, release, version)
]

module _ (ask : String → Reply Ping) (hint : Option String) where
  abbrev pub answer : String → Result Error Found
  answer version = (execute_request (ask version) true >>= slurm_meta) >>= release_of version hint

  -- The ping fails in a way that the loop goes on from.
  abbrev pub Skips : String → Type 0
  Skips version = (e : Error) × (answer version ≡ err e) × (is_skipped e ≡ true)

  -- The ping fails in a way that ends the discovery.
  abbrev pub Stops : String → Error → Type 0
  Stops version e = (answer version ≡ err e) × (is_skipped e ≡ false)

-- The client that has found a version.
abbrev pub Knows : Client → Found → Type 0
Knows c (cluster, release, version) =
    (c.cluster_name ≡ some cluster)
    × (c.slurm_version ≡ some release)
    × (c.api_version ≡ some version)

-- A round answers as the ping does, keeps the hint, and stores what it finds.
record IsRound (ask : String → Reply Ping) (version : String) (c c' : Client)
    (r : Result Error Found) : Type 0 where
  result : r ≡ answer ask c.cluster_name_hint version
  hint : c'.cluster_name_hint ≡ c.cluster_name_hint
  supported : c'.supported_versions ≡ c.supported_versions
  stored : (found : Found) → r ≡ ok found → Knows c' found

keep_lem :
    (version : String) (o : SlurmMeta) (c : Client)
    → ((keep version o c).0 ≡ release_of version c.cluster_name_hint o)
      × ((keep version o c).1.cluster_name_hint ≡ c.cluster_name_hint)
      × ((keep version o c).1.supported_versions ≡ c.supported_versions)
      × ((found : Found) → (keep version o c).0 ≡ ok found → Knows (keep version o c).1 found)
unfolding keep
keep_lem version o c = (ground arith, ground arith, ground arith, λ found h. ground arith)

IsRound-of :
    (ask : String → Reply Ping) (version : String) (c : Client) (m : Result Error SlurmMeta)
    → (execute_request (ask version) true >>= slurm_meta) ≡ m
    → IsRound ask version c (try_version ask version c).1 (try_version ask version c).0
unfolding try_version
IsRound-of ask version c (err e) h = record {
  result = rw (h, try_version);
  hint = rw (h, try_version);
  supported = rw (h, try_version);
  stored = λ found k. cc (rw (h, try_version) at k);
}
IsRound-of ask version c (ok o) h =
    let (result, same_hint, same_supported, stored) = keep_lem version o c in
    record {
      result = rw (h, try_version) result;
      hint = rw (h, try_version) same_hint;
      supported = rw (h, try_version) same_supported;
      stored = λ found k. rw (h, try_version) (stored found (rw (h, try_version) at k));
    }

try_version-IsRound :
    (ask : String → Reply Ping) (version : String) (c : Client)
    → IsRound ask version c (try_version ask version c).1 (try_version ask version c).0
try_version-IsRound ask version c = IsRound-of ask version c _ refl

-- How a discovery ends.
pub data Ends (ask : String → Reply Ping) (hint : Option String) (tried versions : List String)
    : Result Error Found → Client → Type 0 where
  -- The first version that is not skipped answers, and the client keeps what it says.
  first :
      {r : Result Error Found} {c : Client} (before after : List String) (version : String)
      (found : Found)
      → versions ≡ before ++ version ∷ after
      → All (Skips ask hint) before
      → answer ask hint version ≡ ok found
      → r ≡ ok found
      → Knows c found
      → Ends ask hint tried versions r c
  -- It fails in a way that ends the discovery.
  stopped :
      {r : Result Error Found} {c : Client} (before after : List String) (version : String)
      (e : Error)
      → versions ≡ before ++ version ∷ after
      → All (Skips ask hint) before
      → Stops ask hint version e
      → r ≡ err e
      → Ends ask hint tried versions r c
  -- Every version is skipped.
  exhausted :
      {r : Result Error Found} {c : Client}
      → All (Skips ask hint) versions
      → r ≡ err (connection (no_version tried))
      → Ends ask hint tried versions r c

Ends-cons :
    {ask : String → Reply Ping} {hint : Option String} {tried versions : List String}
    {r : Result Error Found} {c : Client} (version : String)
    → Skips ask hint version
    → Ends ask hint tried versions r c
    → Ends ask hint tried (version ∷ versions) r c
Ends-cons v s (first before after version found e h a k m) =
    first (v ∷ before) after version found (ap (λ l. v ∷ l) e) (s, h) a k m
Ends-cons v s (stopped before after version x e h a k) =
    stopped (v ∷ before) after version x (ap (λ l. v ∷ l) e) (s, h) a k
Ends-cons v s (exhausted h k) = exhausted (s, h) k

after-Ends :
    (ask : String → Reply Ping) (version : String) (versions : List String) (c : Client)
    (p : Result Error Found × Client)
    → IsRound ask version c p.1 p.0
    → ((d : Client)
        → d.cluster_name_hint ≡ c.cluster_name_hint
        → d.supported_versions ≡ c.supported_versions
        → Ends ask c.cluster_name_hint c.supported_versions versions
            (try_versions ask versions d).0
            (try_versions ask versions d).1)
    → Ends ask c.cluster_name_hint c.supported_versions
        (version ∷ versions)
        (after p (try_versions ask versions)).0
        (after p (try_versions ask versions)).1
after-Ends ask version versions c (ok found, c') round ih =
    first [] versions version found refl tt (sym round.result) refl (round.stored found refl)
after-Ends ask version versions c (err e, c') round ih = elim (Bool-cases (is_skipped e)) [
  | inl skips ↦
      rw skips (Ends-cons version (e, sym round.result, skips) (ih c' round.hint round.supported))
  | inr stops ↦ rw stops (stopped [] versions version e refl tt (sym round.result, stops) refl)
]

try_versions-Ends :
    (ask : String → Reply Ping) (hint : Option String) (tried versions : List String) (c : Client)
    → c.cluster_name_hint ≡ hint
    → c.supported_versions ≡ tried
    → Ends ask hint tried versions (try_versions ask versions c).0 (try_versions ask versions c).1
unfolding try_versions
try_versions-Ends ask hint tried [] c h k = exhausted tt (rw k)
try_versions-Ends ask hint tried (version ∷ versions) c h k =
    rw (← h, ← k)
      (after-Ends ask version versions c (try_version ask version c)
        (try_version-IsRound ask version c)
        λ d same same_tried.
          try_versions-Ends ask c.cluster_name_hint c.supported_versions versions d same same_tried)

-- A client that knows no version yet tries the supported versions in their order: the discovery ends
-- at the first version whose ping is not one to skip, and then either returns what the ping says and
-- has the client keep it, or fails with the ping's error; or it fails after all of them.
pub discover-Ends :
    (ask : String → Reply Ping) (c : Client)
    → known c ≡ none
    → Ends ask c.cluster_name_hint c.supported_versions c.supported_versions
        (discover ask c).0
        (discover ask c).1
unfolding discover
discover-Ends ask c h =
    rw (h, discover)
      (try_versions-Ends ask c.cluster_name_hint c.supported_versions c.supported_versions c refl
        refl)

known_of_Knows : (c : Client) (found : Found) → Knows c found → known c ≡ some found
known_of_Knows c (cluster, release, version) k = rw (k.0, k.1, k.2)

found_injective : {a b : Found} → ◌≡◌ {A = Result Error Found} (ok a) (ok b) → a ≡ b
found_injective h = cc

Ends-Knows :
    {ask : String → Reply Ping} {hint : Option String} {tried versions : List String}
    {r : Result Error Found} {c : Client} (found : Found)
    → Ends ask hint tried versions r c
    → r ≡ ok found
    → Knows c found
Ends-Knows {c = c} found (first before after version f e h a k m) g =
    subst (Knows c) (found_injective (sym k ∙ g)) m
Ends-Knows found (stopped before after version x e h a k) g = absurd (cc (k, g))
Ends-Knows found (exhausted h k) g = absurd (cc (k, g))

discover_of_known :
    (ask : String → Reply Ping) (c : Client) (found : Found)
    → known c ≡ some found
    → discover ask c ≡ (ok found, c)
unfolding discover
discover_of_known ask c found h = rw (h, discover)

-- After a discovery that succeeds, the next one returns the same, whatever the server says then, and
-- leaves the client as it is.
pub discover_again :
    (ask ask' : String → Reply Ping) (c : Client) (found : Found)
    → (discover ask c).0 ≡ ok found
    → discover ask' (discover ask c).1 ≡ (ok found, (discover ask c).1)
discover_again ask ask' c found h = elim (Option-cases (known c)) [
  | inl unknown ↦
      discover_of_known ask' (discover ask c).1 found
        (known_of_Knows (discover ask c).1 found (Ends-Knows found (discover-Ends ask c unknown) h))
  | inr (f, e) ↦
      let there = discover_of_known ask c f e in
      let same : f ≡ found =
        found_injective (sym (ap (λ (p : Result Error Found × Client). p.0) there) ∙ h) in
      discover_of_known ask' (discover ask c).1 found (rw there (e ∙ ap some same))
]
