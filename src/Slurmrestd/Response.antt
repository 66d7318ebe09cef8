-- ===== src/Slurmrestd/Response.antt =====
-- `_validate_response` and `_execute_request` of slurmweb/slurmrestd/__init__.py: what an answer of
-- slurmrestd, or a failed connection, becomes.
pub mod Outcome
use slurm_web_plus.Prelude.{
  ℕ, String, Bool, true, false, List, [], ◌∷◌, ◌==◌, ◌=ᵇ◌, ◌&&◌, ◌||◌, not, if◌then◌else◌, Option,
  none, some,
}
use slurm_web_plus.Prelude.Text.{strip}
use slurm_web_plus.Prelude.Int.{ℤ, negsuc}
use slurm_web_plus.Prelude.Result.{Result, ok, err, ◌>>=◌, ◌>>◌}
use Prim.Native.String

-- The exceptions of slurmweb/slurmrestd/errors.py, the `KeyError` of a key that is not
-- there, and the `ValueError` of a body that is no JSON.
pub data Error : Type 0 where
  not_found : String → Error
  invalid_response : String → Error
  connection : String → Error
  authentication : String → Error
  internal : (message : String) (number : ℤ) (description source : String) → Error
  key_error : String → Error
  value_error : Error

-- An entry of `errors`. `none` is a key that the entry does not have.
pub record Failure : Type 0 where
  pub message : Option String
  pub number : Option ℤ
  pub description : Option String
  pub source : Option String

-- The parsed body: its errors (`none` where there is no such key) and the rest, which is of the
-- type that the request asks for.
pub record Body (A : Type 0) : Type 0 where
  pub errors : Option (List Failure)
  pub content : A

pub record Response (A : Type 0) : Type 0 where
  pub url : String
  pub status_code : ℕ
  pub text : String
  pub content_type : Option String
  pub body : Option (Body A)

-- The answer of the HTTP library: a response, or its `ConnectionError`.
pub data Reply (A : Type 0) : Type 0 where
  unreachable : String → Reply A
  answered : Response A → Reply A

-- `error.get(key, default)`.
abbrev pub or_default : {B : Type 0} → B → Option B → B
or_default b none = b
or_default b (some c) = c

-- `error[key]`.
abbrev pub item : String → Option String → Result Error String
item key none = err (key_error key)
item key (some value) = ok value

-- The exception that is raised for the first error of an answer.
unfoldable pub internal_error : Failure → Error
internal_error f = elim (item "description" f.description) [
  | err e ↦ e
  | ok description ↦ elim (item "source" f.source) [
    | err e ↦ e
    | ok source ↦
        internal (or_default "slurmrestd undefined error" f.message)
          (or_default (negsuc 0) f.number) description source
  ]
]

abbrev pub is_json : Option String → Bool
is_json none = false
is_json (some content_type) = content_type == "application/json"

-- The message of `_validate_json`.
abbrev pub unsupported : String → Option String → String
unsupported url content_type =
    String.◌++◌ "Unsupported Content-Type for slurmrestd response "
      (String.◌++◌ url (String.◌++◌ ": " (or_default "None" content_type)))

module _ {A : Type 0} where
  -- HTTP/401, or the HTTP/500 by which Slurm 25.11.0 says the same.
  unfoldable pub denies_authentication : Response A → Bool
  unfolding strip
  denies_authentication r =
      r.status_code =ᵇ 401
      || (r.status_code =ᵇ 500 && strip r.text == "Authentication does not apply to request")

  unfoldable pub validate_status : Response A → Bool → Result Error (Unit {0})
  validate_status r ignore_notfound =
      if denies_authentication r
      then err (authentication r.url)
      else if not ignore_notfound && r.status_code =ᵇ 404
      then err (not_found r.url)
      else ok tt

  unfoldable pub validate_json : Response A → Result Error (Unit {0})
  validate_json r =
      if is_json r.content_type
      then ok tt
      else err (invalid_response (unsupported r.url r.content_type))

  unfoldable pub validate_response : Response A → Bool → Result Error (Unit {0})
  validate_response r ignore_notfound = do validate_status r ignore_notfound; validate_json r

  -- The warnings of a body are only logged.
  unfoldable pub check_errors : Body A → Result Error A
  check_errors body = elim body.errors [
    | none ↦ err (key_error "errors")
    | some [] ↦ ok body.content
    | some (failure ∷ failures) ↦ err (internal_error failure)
  ]

  -- `response.json()`.
  abbrev pub parsed : Option (Body A) → Result Error (Body A)
  parsed none = err value_error
  parsed (some body) = ok body

  unfoldable pub execute_request : Reply A → Bool → Result Error A
  execute_request (unreachable message) ignore_notfound = err (connection message)
  execute_request (answered r) ignore_notfound = do
    validate_response r ignore_notfound
    body ← parsed r.body
    check_errors body
