-- ===== src/Payload/Entries.antt =====
-- `_normalize_qos_payload`, `_normalize_accounts_payload`, `_normalize_users_payload` and the entries
-- of accounts and users.
use slurm_web_plus.Prelude.{
  String, Bool, true, false, ◌==◌, List, [], ◌∷◌, map, if◌then◌else◌, Option, none, some, ◌≡◌, ◌⊎◌,
  refl, sym, ap, subst, ◌∙◌, arith, eq_iff, eq_refl, Bool-cases, inl, inr,
}
use slurm_web_plus.Prelude.Dict.{Dict, get, assign, get-assign, IsDict, get-eq-none}
use slurm_web_plus.Json.Value.{
  Json, null, bool, number, text, array, object, list, dict, as_list, as_dict, truthy, get_or_null,
  get_or, or_other,
}
use slurm_web_plus.Payload.Qos.{normalize_single_qos}

abbrev pub listed : Option Json → Option (List Json)
listed none = none
listed (some j) = as_list j

-- A payload with a list of entries under the key has them normalised; another dictionary is taken for
-- a single entry.
unfoldable pub entries_payload : String → (Json → Json) → Json → Json
unfolding as_dict as_list dict list get assign
entries_payload key single payload = elim (as_dict payload) [
  | none ↦ payload
  | some d ↦ elim (listed (get key d)) [
    | none ↦ dict ((key, list (single payload ∷ [])) ∷ [])
    | some entries ↦ dict (assign key (list (map single entries)) d)
  ]
]

-- An account entry that is a dictionary.
unfoldable pub normalize_account : Dict Json → Dict Json
unfolding get_or_null truthy get_or assign
normalize_account d =
    if truthy (get_or_null "organization" d)
    then d
    else assign "organization" (get_or "description" (get_or "name" (text "unknown") d) d) d

unfoldable pub normalize_single_account : Json → Json
unfolding as_dict dict
normalize_single_account payload = elim (as_dict payload) [
  | none ↦ payload
  | some d ↦ dict (normalize_account d)
]

-- `value == ""`.
unfoldable pub is_empty_text : Json → Bool
is_empty_text (text s) = s == ""
is_empty_text null = false
is_empty_text (bool b) = false
is_empty_text (number n) = false
is_empty_text (array js) = false
is_empty_text (object ms) = false

-- The loop that keeps the values that are not empty.
unfoldable pub keep_values : Dict Json → Dict Json → Dict Json
unfolding is_empty_text assign
keep_values normalized [] = normalized
keep_values normalized ((key, value) ∷ payload) =
    keep_values (if is_empty_text value then normalized else assign key value normalized) payload

unfoldable pub normalize_single_user : Json → Json
unfolding as_dict dict keep_values
normalize_single_user payload = elim (as_dict payload) [
  | none ↦ payload
  | some d ↦ dict (keep_values [] d)
]

unfoldable pub normalize_qos_payload : Json → Json
unfolding entries_payload normalize_single_qos
normalize_qos_payload payload = entries_payload "qos" normalize_single_qos payload

unfoldable pub normalize_accounts_payload : Json → Json
unfolding entries_payload normalize_single_account
normalize_accounts_payload payload = entries_payload "accounts" normalize_single_account payload

unfoldable pub normalize_users_payload : Json → Json
unfolding entries_payload normalize_single_user
normalize_users_payload payload = entries_payload "users" normalize_single_user payload

get_or-truthy :
    (k : String) (other : Json) (d : Dict Json)
    → truthy other ≡ true
    → truthy (get_or k other d) ≡ true
unfolding get_or
get_or-truthy k other d h = either (get_or_null k d)
  where
    either : (v : Json) → truthy (or_other v other) ≡ true
    either v = ground (arith, h)

or_null : Option Json → Json
or_null o = elim o [ none ↦ null | some j ↦ j ]

get_or_null-assign : (k : String) (v : Json) (d : Dict Json) → get_or_null k (assign k v d) ≡ v
unfolding get_or_null or_null
get_or_null-assign k v d =
    let e : get k (assign k v d) ≡ some v = get-assign k k v d ∙ ground (arith, eq_refl k) in
    ap or_null e

-- A normalised account has an organization, and is as it was otherwise.
pub normalize_account_lem :
    (d : Dict Json)
    → (truthy (get_or_null "organization" (normalize_account d)) ≡ true)
      × ((k : String) → (k ≡ "organization") ⊎ (get k (normalize_account d) ≡ get k d))
unfolding normalize_account
normalize_account_lem d = elim (Bool-cases (truthy (get_or_null "organization" d))) [
  | inl e ↦ rw (e, normalize_account) (e, λ k. inr refl)
  | inr e ↦
      rw (e, normalize_account)
        (
          organized _ (
              get_or-truthy "description" _ d
                (get_or-truthy "name" (text "unknown") d (unfold truthy in refl))),
          λ k. elim (Bool-cases (k == "organization")) [
            | inl f ↦ inl ((eq_iff k "organization").0 f)
            | inr f ↦ inr (
                get-assign "organization" k _ d
                ∙ ground (arith, f, eq_iff k "organization", eq_iff "organization" k))
          ],
        )
]
  where
    organized :
        (v : Json)
        → truthy v ≡ true
        → truthy (get_or_null "organization" (assign "organization" v d)) ≡ true
    organized v h =
        subst (λ (j : Json). truthy j ≡ true) (sym (get_or_null-assign "organization" v d)) h

-- What the loop over a user's values leaves.
abbrev pub kept_value : Option Json → Option Json
kept_value none = none
kept_value (some v) = if is_empty_text v then none else some v

abbrev pub over : Option Json → Option Json → Option Json
over none o = o
over (some v) o = some v

keep_values_lem :
    (k : String) (normalized d : Dict Json)
    → IsDict d
    → get k (keep_values normalized d) ≡ over (kept_value (get k d)) (get k normalized)
unfolding keep_values get
keep_values_lem k normalized [] h = refl
keep_values_lem k normalized ((j, v) ∷ d) h =
    keep_values_lem k (if is_empty_text v then normalized else assign j v normalized) d h.1
    ∙ ground (arith, get-assign j k v normalized, get-eq-none j d h.0, eq_iff j k)

over-none : (o : Option Json) → over o none ≡ o
over-none none = refl
over-none (some v) = refl

-- A key of a normalised user has its value, unless that is the empty text, which is dropped.
pub normalize_user_lem :
    (k : String) (d : Dict Json) → IsDict d → get k (keep_values [] d) ≡ kept_value (get k d)
unfolding get
normalize_user_lem k d h = keep_values_lem k [] d h ∙ over-none (kept_value (get k d))
