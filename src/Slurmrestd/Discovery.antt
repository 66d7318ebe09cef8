-- ===== src/Slurmrestd/Discovery.antt =====
-- `discover` of slurmweb/slurmrestd/__init__.py: the client tries the supported API versions in
-- turn and keeps the first that answers.
pub mod First
use slurm_web_plus.Prelude.{
  String, Bool, true, false, List, [], ◌∷◌, ◌==◌, if◌then◌else◌, Option, none, some,
}
use slurm_web_plus.Prelude.Result.{Result, ok, err, ◌>>=◌}
use slurm_web_plus.Slurmrestd.Response.{
  Error, not_found, invalid_response, connection, authentication, internal, key_error, value_error,
  Reply, execute_request,
}
use Prim.Native.String

-- The part of the answer to a ping that the discovery reads.
pub record SlurmMeta : Type 0 where
  pub cluster : Option String
  pub release : Option String

-- A value under `meta`: one that Python takes for false, an object, or another.
pub data MetaField : Type 0 where
  falsy : MetaField
  object : SlurmMeta → MetaField
  other : MetaField

pub record Meta : Type 0 where
  pub slurm : MetaField
  pub capital_slurm : MetaField

-- `none` is an answer with no `meta`.
abbrev pub Ping : Type 0
Ping = Option Meta

pub record Client : Type 0 where
  pub supported_versions : List String
  pub cluster_name_hint : Option String
  pub cluster_name : Option String
  pub slurm_version : Option String
  pub api_version : Option String

abbrev pub Found : Type 0
Found = String × String × String

-- `meta.get("slurm") or meta.get("Slurm")`.
abbrev either : MetaField → MetaField → MetaField
either falsy f = f
either (object o) f = object o
either other f = other

abbrev as_object : MetaField → Result Error SlurmMeta
as_object falsy = err (key_error "meta.slurm")
as_object (object o) = ok o
as_object other = err (key_error "meta.slurm")

unfoldable pub slurm_meta : Ping → Result Error SlurmMeta
slurm_meta none = err (key_error "meta")
slurm_meta (some m) = as_object (either m.slurm m.capital_slurm)

-- `self.cluster_name_hint or "unknown"`.
abbrev pub hint_or_unknown : Option String → String
hint_or_unknown none = "unknown"
hint_or_unknown (some hint) = if hint == "" then "unknown" else hint

abbrev pub cluster_of : Option String → SlurmMeta → String
cluster_of hint o = elim o.cluster [ none ↦ hint_or_unknown hint | some cluster ↦ cluster ]

abbrev pub with_cluster : String → Client → Client
with_cluster cluster c = record c { cluster_name = some cluster }

-- The statements behind the test on `slurm_meta`: the cluster's name is kept also where there is no
-- release.
unfoldable pub keep : String → SlurmMeta → Client → Result Error Found × Client
keep version o c =
    let cluster = cluster_of c.cluster_name_hint o in
    elim o.release [
      | none ↦ (err (key_error "release"), with_cluster cluster c)
      | some release ↦ (
        ok (cluster, release, version),
        record (with_cluster cluster c) {
          slurm_version = some release;
          api_version = some version;
        },
      )
    ]

-- The body of `try`.
unfoldable pub try_version : (String → Reply Ping) → String → Client → Result Error Found × Client
try_version ask version c = elim (execute_request (ask version) true >>= slurm_meta) [
  | err e ↦ (err e, c)
  | ok o ↦ keep version o c
]

-- The exceptions that the loop catches.
unfoldable pub is_skipped : Error → Bool
is_skipped (not_found url) = true
is_skipped (invalid_response url) = true
is_skipped (internal message number description source) = true
is_skipped (key_error key) = true
is_skipped value_error = true
is_skipped (connection message) = false
is_skipped (authentication url) = false

-- What the `except` clauses make of the result.
abbrev after :
    Result Error Found × Client
    → (Client → Result Error Found × Client)
    → Result Error Found × Client
after (ok found, c) next = (ok found, c)
after (err e, c) next = if is_skipped e then next c else (err e, c)

-- `', '.join(versions)`.
abbrev comma_separated : List String → String
comma_separated [] = ""
comma_separated (v ∷ []) = v
comma_separated (v ∷ w ∷ versions) =
    String.◌++◌ v (String.◌++◌ ", " (comma_separated (w ∷ versions)))

abbrev pub no_version : List String → String
no_version versions =
    String.◌++◌ "Unable to discover slurmrestd API version. Tried versions: "
      (comma_separated versions)

unfoldable pub try_versions :
    (String → Reply Ping) → List String → Client → Result Error Found × Client
try_versions ask [] c = (err (connection (no_version c.supported_versions)), c)
try_versions ask (version ∷ versions) c =
    after (try_version ask version c) (try_versions ask versions)

-- What was discovered already is returned.
abbrev pub known : Client → Option Found
known c = elim c.cluster_name [
  | none ↦ none
  | some cluster ↦ elim c.slurm_version [
    | none ↦ none
    | some release ↦ elim c.api_version [
      | none ↦ none
      | some version ↦ some (cluster, release, version)
    ]
  ]
]

unfoldable pub discover : (String → Reply Ping) → Client → Result Error Found × Client
discover ask c = elim (known c) [
  | none ↦ try_versions ask c.supported_versions c
  | some found ↦ (ok found, c)
]
