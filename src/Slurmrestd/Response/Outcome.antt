-- ===== src/Slurmrestd/Response/Outcome.antt =====
-- When a request succeeds, and which failure goes before which.
use slurm_web_plus.Prelude.{
  String, Bool, true, false, [], ◌==◌, if◌then◌else◌, Option, none, some, ◌≡◌, ◌≢◌, ◌⊎◌, ◌↔◌, inl,
  inr, refl, arith, eq_iff, ap, ◌∙◌, Option-cases,
}
use slurm_web_plus.Prelude.Result.{Result, ok, err, >>=-eq-ok}
use slurm_web_plus.Slurmrestd.Response.{
  Error, invalid_response, parsed, unsupported, Body, Response, Reply, unreachable, answered,
  denies_authentication, validate_status, validate_json, validate_response, check_errors,
  execute_request,
}

module _ {A : Type 0} where
  -- A JSON answer with no errors, no refused authentication, and no HTTP/404 unless that is to be
  -- ignored.
  pub record Succeeds (reply : Reply A) (ignore_notfound : Bool) (a : A) : Type 0 where
    pub response : Response A
    pub reached : reply ≡ answered response
    pub authenticated : denies_authentication response ≡ false
    pub found : (ignore_notfound ≡ true) ⊎ (response.status_code ≢ 404)
    pub json : response.content_type ≡ some "application/json"
    pub body : Body A
    pub parsed : response.body ≡ some body
    pub no_errors : body.errors ≡ some []
    pub content : body.content ≡ a

  check_errors_sound :
      (b : Body A) (a : A) → check_errors b ≡ ok a → (b.errors ≡ some []) × (b.content ≡ a)
  unfolding check_errors
  check_errors_sound b a h = ground arith

  status_sound :
      (r : Response A) (ignore : Bool) {u : Unit {0}}
      → validate_status r ignore ≡ ok u
      → (denies_authentication r ≡ false) × ((ignore ≡ true) ⊎ (r.status_code ≢ 404))
  unfolding validate_status
  status_sound r ignore h = ground arith

  json_sound :
      (r : Response A) {u : Unit {0}}
      → validate_json r ≡ ok u
      → r.content_type ≡ some "application/json"
  unfolding validate_json
  json_sound r h = elim (Option-cases r.content_type) [
    | inl e ↦ absurd (cc (rw (e, validate_json) at h))
    | inr (t, e) ↦
        e ∙ ap some ((eq_iff t "application/json").0 (is_true t (rw (e, validate_json) at h)))
  ]
    where
      is_true :
          (t : String)
          → ◌≡◌ {A = Result Error (Unit {0})}
              (if t == "application/json"
                then ok tt
                else err (invalid_response (unsupported r.url (some t))))
              (ok tt)
          → (t == "application/json") ≡ true
      is_true t h = ground arith

  parsed_sound : (o : Option (Body A)) (b : Body A) → parsed o ≡ ok b → o ≡ some b
  parsed_sound none b h = cc
  parsed_sound (some c) b h = cc

  Succeeds-sound :
      (r : Response A) (ignore : Bool) (a : A)
      → execute_request (answered r) ignore ≡ ok a
      → Succeeds (answered r) ignore a
  unfolding execute_request validate_response
  Succeeds-sound r ignore a h =
      let (_, valid, h₁) = >>=-eq-ok (validate_response r ignore) _ h in
      let (_, status, json) = >>=-eq-ok (validate_status r ignore) _ valid in
      let (b, body, h₂) = >>=-eq-ok (parsed r.body) _ h₁ in
      let (authenticated, found) = status_sound r ignore status in
      let (no_errors, content) = check_errors_sound b a h₂ in
      record {
        response = r;
        reached = refl;
        authenticated = authenticated;
        found = found;
        json = json_sound r json;
        body = b;
        parsed = parsed_sound r.body b body;
        no_errors = no_errors;
        content = content;
      }

  Succeeds-complete :
      (reply : Reply A) (ignore : Bool) (a : A)
      → Succeeds reply ignore a
      → execute_request reply ignore ≡ ok a
  unfolding execute_request validate_response validate_json check_errors
  Succeeds-complete reply ignore a s =
      rw
        (
          s.reached,
          status_complete s.response ignore s.authenticated s.found,
          s.json,
          s.parsed,
          s.no_errors,
        )
        (ap ok s.content)
    where
      status_complete :
          (r : Response A) (ignore : Bool)
          → denies_authentication r ≡ false
          → (ignore ≡ true) ⊎ (r.status_code ≢ 404)
          → validate_status r ignore ≡ ok tt
      status_complete r ignore h k = unfold validate_status in ground arith

  -- A request succeeds, with the content `a`, exactly when the reply is an answer that does not deny the
  -- authentication, is no HTTP/404 unless that is to be ignored, is of type application/json, and has a
  -- JSON body with no errors and the content `a`.
  pub execute_request_iff :
      (reply : Reply A) (ignore_notfound : Bool) (a : A)
      → (execute_request reply ignore_notfound ≡ ok a) ↔ Succeeds reply ignore_notfound a
  unfolding execute_request
  execute_request_iff (unreachable message) ignore a = (λ h. cc, λ s. cc (s.reached))
  execute_request_iff (answered r) ignore a =
      (Succeeds-sound r ignore a, Succeeds-complete (answered r) ignore a)
