-- ===== src/Payload/Reservation.antt =====
-- `_normalize_reservation_payload` and what it calls.
use slurm_web_plus.Prelude.{String, ◌&&◌, List, [], ◌∷◌, map, if◌then◌else◌, Option, none, some}
use slurm_web_plus.Prelude.Text.{split, join, strip}
use slurm_web_plus.Prelude.Dict.{Dict, get, has, assign, remove}
use slurm_web_plus.Json.Value.{
  Json, null, bool, number, text, array, object, elements, dict, as_dict, truthy, is_blank,
  get_or_null, text_of,
}
use slurm_web_plus.Slurmrestd.Partition.{stripped}

-- The value of the first alias that is there, which is taken out.
unfoldable pub pop_aliases : List String → Dict Json → Json × Dict Json
unfolding get remove
pop_aliases [] d = (null, d)
pop_aliases (alias ∷ aliases) d = elim (get alias d) [
  | none ↦ pop_aliases aliases d
  | some value ↦ (value, remove alias d)
]

unfoldable pub reservation_time : Json → Json
unfolding as_dict dict has truthy get_or_null
reservation_time value = elim (as_dict value) [
  | none ↦ value
  | some d ↦
      if has "set" d && has "number" d
      then dict
          (("set", bool (truthy (get_or_null "set" d))) ∷ ("number", get_or_null "number" d) ∷ [])
      else value
]

abbrev pub join_values : List String → Option String
join_values [] = none
join_values (v ∷ vs) = some (join "," (v ∷ vs))

abbrev pub set_text : String → Option String → Dict Json → Dict Json
set_text key none d = d
set_text key (some value) d = assign key (text value) d

abbrev pub set_time : String → Json → Dict Json → Dict Json
set_time key null d = d
set_time key value d = assign key (reservation_time value) d

-- `str` is Python's, on values that are no text.
module _ (str : Json → String) where
  unfoldable pub reservation_csv : Json → Option String
  unfolding stripped split strip is_blank elements
  reservation_csv value = if is_blank value then none else elim value [
    | text s ↦ join_values (stripped (split b',' s))
    | array js ↦ join_values (stripped (map (text_of str) (elements js)))
    | null ↦ join_values (stripped (str null ∷ []))
    | bool b ↦ join_values (stripped (str (bool b) ∷ []))
    | number n ↦ join_values (stripped (str (number n) ∷ []))
    | object ms ↦ join_values (stripped (str (object ms) ∷ []))
  ]

  unfoldable pub normalize_reservation : Dict Json → Dict Json
  unfolding pop_aliases reservation_csv reservation_time assign
  normalize_reservation payload =
      let (users, d₁) = pop_aliases ("users" ∷ "Users" ∷ []) payload in
      let (groups, d₂) = pop_aliases ("groups" ∷ "Groups" ∷ []) d₁ in
      let (accounts, d₃) = pop_aliases ("accounts" ∷ "Accounts" ∷ []) d₂ in
      let (qos, d₄) = pop_aliases ("qos" ∷ "QOS" ∷ "Qos" ∷ []) d₃ in
      let (partition, d₅) =
        pop_aliases
          ("partition" ∷ "Partition" ∷ "allowed_partitions" ∷ "allowedPartitions"
            ∷ "AllowedPartitions" ∷ [])
          d₄ in
      let (start_time, d₆) = pop_aliases ("start_time" ∷ "StartTime" ∷ []) d₅ in
      let (end_time, d₇) = pop_aliases ("end_time" ∷ "EndTime" ∷ []) d₆ in
      set_time "end_time" end_time (
        set_time "start_time" start_time (
          set_text "partition" (reservation_csv partition) (
            set_text "qos" (reservation_csv qos) (
              set_text "accounts" (reservation_csv accounts) (
                set_text "groups" (reservation_csv groups)
                  (set_text "users" (reservation_csv users) d₇))))))

  unfoldable pub normalize_reservation_payload : Json → Json
  unfolding as_dict dict
  normalize_reservation_payload payload = elim (as_dict payload) [
    | none ↦ payload
    | some d ↦ dict (normalize_reservation d)
  ]
