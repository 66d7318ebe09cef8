-- ===== src/Adapters/V41.antt =====
-- `AdapterV0_0_41`: from version 0.0.41 to 0.0.42.
use slurm_web_plus.Prelude.{true, false, [], ◌∷◌, Option}
use slurm_web_plus.Prelude.Dict.{Dict}
use slurm_web_plus.Prelude.Int.{pos}
use slurm_web_plus.Prelude.Maybe.{◌>>=◌}
use slurm_web_plus.Json.Value.{Json, bool, number, list, dict}
use slurm_web_plus.Adapters.Fields.{set_at}

unfoldable pub adapt_qos : Dict Json → Option (Dict Json)
unfolding set_at dict list
adapt_qos qos = do
  counted ←
      set_at ("limits" ∷ "max" ∷ "jobs" ∷ []) "count"
        (dict (("infinite", bool true) ∷ ("number", number (pos 0)) ∷ ("set", bool false) ∷ [])) qos
  set_at ("limits" ∷ "max" ∷ "tres" ∷ "minutes" ∷ []) "total" (list []) counted
