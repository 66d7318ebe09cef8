-- ===== src/Adapters/Tests.antt =====
-- The theorems on adapters at concrete versions and items.
use slurm_web_plus.Prelude.{String, false, List, [], ◌∷◌, elem, none, some, ◌≡◌, refl, arith}
use slurm_web_plus.Prelude.Dict.{Dict, get, assign}
use slurm_web_plus.Prelude.Int.{pos}
use slurm_web_plus.Prelude.Maybe.{◌>>=◌}
use slurm_web_plus.Json.Value.{Json, null, number, text, list, as_dict}
use slurm_web_plus.Adapters.Fields.{on_field, on_fields}
use slurm_web_plus.Adapters.Number.{optional_number, int_of}
use slurm_web_plus.Adapters.V39.{adapt_node}
use slurm_web_plus.Adapters.Chain.{
  v40, v41, v42, v43, reversed, index, adapters_of, apply_chain, build_adaptation_chain,
}
use slurm_web_plus.Adapters.Laws.{apply_chain-append}
use slurm_web_plus.Adapters.Succession.{Leads, IsSuccession, build_adaptation_chain-Leads}
use slurm_web_plus.Adapters.Times.{IsTimed, adapt_node-IsTimed}

abbrev supported : List String
supported = "0.0.44" ∷ "0.0.43" ∷ "0.0.42" ∷ "0.0.41" ∷ "0.0.40" ∷ []

chain_of_three : build_adaptation_chain "0.0.40" "0.0.43" supported ≡ v40 ∷ v41 ∷ v42 ∷ []
unfolding build_adaptation_chain reversed index adapters_of
chain_of_three = refl

no_chain_back : build_adaptation_chain "0.0.43" "0.0.40" supported ≡ []
unfolding build_adaptation_chain reversed index adapters_of
no_chain_back = refl

supported-IsSuccession : IsSuccession (reversed supported)
unfolding reversed
supported-IsSuccession =
    ((v40, refl, refl), ((v41, refl, refl), ((v42, refl, refl), ((v43, refl, refl), tt))))

build_adaptation_chain-Leads_example :
    Leads "0.0.40" (build_adaptation_chain "0.0.40" "0.0.44" supported) "0.0.44"
unfolding reversed index
build_adaptation_chain-Leads_example =
    build_adaptation_chain-Leads "0.0.40" "0.0.44" supported 0 4 supported-IsSuccession refl refl
      (omega arith)

apply_chain-append_example :
    apply_chain (λ j. "") none (v40 ∷ v42 ∷ []) "slurm" "jobs" (list []) ≡ (
      apply_chain (λ j. "") none (v40 ∷ []) "slurm" "jobs" (list [])
      >>= apply_chain (λ j. "") none (v42 ∷ []) "slurm" "jobs")
apply_chain-append_example =
    apply_chain-append (λ j. "") none (v40 ∷ []) (v42 ∷ []) "slurm" "jobs" (list [])

abbrev node : Dict Json
node = ("name", text "n1") ∷ ("boot_time", number (pos 7)) ∷ ("last_busy", null) ∷ []

node_adapted : (e : Dict Json) × (adapt_node node ≡ some e)
unfolding adapt_node on_fields on_field optional_number int_of as_dict get assign
node_adapted = (_, refl)

adapt_node-IsTimed_example :
    IsTimed (get "boot_time" node) (get "boot_time" node_adapted.0)
    × IsTimed (get "last_busy" node) (get "last_busy" node_adapted.0)
    × IsTimed (get "slurmd_start_time" node) (get "slurmd_start_time" node_adapted.0)
    × IsTimed (get "reason_changed_at" node) (get "reason_changed_at" node_adapted.0)
    × (elem "name" ("boot_time" ∷ "last_busy" ∷ "slurmd_start_time" ∷ "reason_changed_at" ∷ [])
          ≡ false
        → get "name" node_adapted.0 ≡ get "name" node)
adapt_node-IsTimed_example = adapt_node-IsTimed node node_adapted.0 "name" node_adapted.1

seven : (w : Json) × (optional_number (number (pos 7)) ≡ some w)
unfolding optional_number int_of as_dict
seven = (_, refl)
