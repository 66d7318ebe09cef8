-- ===== src/Payload/Qos/Outcome.antt =====
-- The three limits of a normalised QOS entry.
use slurm_web_plus.Prelude.{
  String, true, false, ◌==◌, List, [], ◌∷◌, elem, ◌≡◌, ◌≢◌, refl, sym, ap, ◌∙◌, eq_iff, inl, inr,
}
use slurm_web_plus.Prelude.Dict.{Dict}
use slurm_web_plus.Prelude.Int.{pos}
use slurm_web_plus.Json.Value.{Json}
use slurm_web_plus.Json.Path.{path_in, path_in-cons, under}
use slurm_web_plus.Payload.Qos.{
  pop_first, limit_value, max_submit_jobs_aliases, max_jobs_aliases, max_wall_aliases, with_submit,
  with_active, with_wall, normalize_qos_entry,
}
use slurm_web_plus.Payload.Qos.Aliases.{
  first_given, first_given_congr, pop_first_other, pop_first_value, elem_apart,
}
use slurm_web_plus.Payload.Qos.Limits.{kept_or_set, set_limit_self, set_limit_ne}

texts-ne : (s t : String) → (s == t) ≡ false → s ≢ t
texts-ne s t h e = cc (h, (eq_iff s t).1 e)

abbrev pub submit_path : List String
submit_path = "limits" ∷ "max" ∷ "jobs" ∷ "per" ∷ "user" ∷ []

abbrev pub active_path : List String
active_path = "limits" ∷ "max" ∷ "jobs" ∷ "active_jobs" ∷ "per" ∷ "user" ∷ []

abbrev pub wall_path : List String
wall_path = "limits" ∷ "max" ∷ "wall_clock" ∷ "per" ∷ "job" ∷ []

-- The entry with its limits, over the values that were taken out of it.
module _ (submit active wall : Json) (d : Dict Json) where
  submit_limit :
      path_in submit_path (with_wall wall (with_active active (with_submit submit d)))
      ≡ kept_or_set (path_in submit_path d) (limit_value submit (pos 100))
  submit_limit =
      set_limit_ne wall (pos 8640) ("max" ∷ "wall_clock" ∷ "per" ∷ []) "job" "max"
        ("jobs" ∷ "per" ∷ "user" ∷ []) _ (inr (refl, inl (texts-ne "jobs" "wall_clock" refl)))
      ∙ set_limit_ne active (pos 10) ("max" ∷ "jobs" ∷ "active_jobs" ∷ "per" ∷ []) "user" "max"
          ("jobs" ∷ "per" ∷ "user" ∷ []) _
          (inr (refl, inr (refl, inl (texts-ne "per" "active_jobs" refl))))
      ∙ set_limit_self submit (pos 100) "max" ("jobs" ∷ "per" ∷ []) "user" d

  active_limit :
      path_in active_path (with_wall wall (with_active active (with_submit submit d)))
      ≡ kept_or_set (path_in active_path d) (limit_value active (pos 10))
  active_limit =
      set_limit_ne wall (pos 8640) ("max" ∷ "wall_clock" ∷ "per" ∷ []) "job" "max"
        ("jobs" ∷ "active_jobs" ∷ "per" ∷ "user" ∷ []) _
        (inr (refl, inl (texts-ne "jobs" "wall_clock" refl)))
      ∙ set_limit_self active (pos 10) "max" ("jobs" ∷ "active_jobs" ∷ "per" ∷ []) "user"
          (with_submit submit d)
      ∙ ap (λ o. kept_or_set o (limit_value active (pos 10)))
          (set_limit_ne submit (pos 100) ("max" ∷ "jobs" ∷ "per" ∷ []) "user" "max"
            ("jobs" ∷ "active_jobs" ∷ "per" ∷ "user" ∷ []) d
            (inr (refl, inr (refl, inl (texts-ne "active_jobs" "per" refl)))))

  wall_limit :
      path_in wall_path (with_wall wall (with_active active (with_submit submit d)))
      ≡ kept_or_set (path_in wall_path d) (limit_value wall (pos 8640))
  wall_limit =
      set_limit_self wall (pos 8640) "max" ("wall_clock" ∷ "per" ∷ []) "job"
        (with_active active (with_submit submit d))
      ∙ ap (λ o. kept_or_set o (limit_value wall (pos 8640)))
          (set_limit_ne active (pos 10) ("max" ∷ "jobs" ∷ "active_jobs" ∷ "per" ∷ []) "user" "max"
              ("wall_clock" ∷ "per" ∷ "job" ∷ []) _
              (inr (refl, inl (texts-ne "wall_clock" "jobs" refl)))
            ∙ set_limit_ne submit (pos 100) ("max" ∷ "jobs" ∷ "per" ∷ []) "user" "max"
                ("wall_clock" ∷ "per" ∷ "job" ∷ []) d
                (inr (refl, inl (texts-ne "wall_clock" "jobs" refl))))

-- Taking out aliases leaves the limits and the other aliases.
module _ (qos : Dict Json) where
  abbrev rest₁ : Dict Json
  rest₁ = (pop_first qos max_submit_jobs_aliases).1

  abbrev rest₂ : Dict Json
  rest₂ = (pop_first rest₁ max_jobs_aliases).1

  abbrev rest₃ : Dict Json
  rest₃ = (pop_first rest₂ max_wall_aliases).1

  limits_left : (ks : List String) → path_in ("limits" ∷ ks) rest₃ ≡ path_in ("limits" ∷ ks) qos
  unfolding elem
  limits_left ks =
      path_in-cons "limits" ks rest₃
      ∙ ap (under ks) (
          pop_first_other "limits" rest₂ max_wall_aliases refl
          ∙ pop_first_other "limits" rest₁ max_jobs_aliases refl
          ∙ pop_first_other "limits" qos max_submit_jobs_aliases refl)
      ∙ sym (path_in-cons "limits" ks qos)

  submit_given : (pop_first qos max_submit_jobs_aliases).0 ≡ first_given qos max_submit_jobs_aliases
  unfolding elem
  submit_given = pop_first_value qos max_submit_jobs_aliases (refl, (refl, (refl, tt)))

  active_given : (pop_first rest₁ max_jobs_aliases).0 ≡ first_given qos max_jobs_aliases
  unfolding elem
  active_given =
      pop_first_value rest₁ max_jobs_aliases (refl, (refl, (refl, tt)))
      ∙ first_given_congr rest₁ qos max_jobs_aliases
          (λ b m. pop_first_other b qos max_submit_jobs_aliases (apart b m))
    where
      apart : (b : String) → elem b max_jobs_aliases ≡ true → elem b max_submit_jobs_aliases ≡ false
      apart b m = elem_apart b max_jobs_aliases max_submit_jobs_aliases (refl, (refl, (refl, tt))) m

  wall_given : (pop_first rest₂ max_wall_aliases).0 ≡ first_given qos max_wall_aliases
  unfolding elem
  wall_given =
      pop_first_value rest₂ max_wall_aliases (refl, (refl, (refl, tt)))
      ∙ first_given_congr rest₂ qos max_wall_aliases (λ b m.
        pop_first_other b rest₁ max_jobs_aliases (apart b m).1
        ∙ pop_first_other b qos max_submit_jobs_aliases (apart b m).0)
    where
      apart :
          (b : String)
          → elem b max_wall_aliases ≡ true
          → (elem b max_submit_jobs_aliases ≡ false) × (elem b max_jobs_aliases ≡ false)
      apart b m = (
        elem_apart b max_wall_aliases max_submit_jobs_aliases (refl, (refl, (refl, tt))) m,
        elem_apart b max_wall_aliases max_jobs_aliases (refl, (refl, (refl, tt))) m,
      )

-- Each of the three limits of a normalised entry is the entry's own, if that is a limit; else it is made
-- of the first alias that the entry gives with a value that is not blank, or of the default.
pub normalize_qos_entry_lem :
    (qos : Dict Json)
    → (path_in submit_path (normalize_qos_entry qos)
        ≡ kept_or_set
            (path_in submit_path qos)
            (limit_value (first_given qos max_submit_jobs_aliases) (pos 100)))
      × (path_in active_path (normalize_qos_entry qos)
          ≡ kept_or_set
              (path_in active_path qos)
              (limit_value (first_given qos max_jobs_aliases) (pos 10)))
      × (path_in wall_path (normalize_qos_entry qos)
          ≡ kept_or_set
              (path_in wall_path qos)
              (limit_value (first_given qos max_wall_aliases) (pos 8640)))
unfolding normalize_qos_entry
normalize_qos_entry_lem qos = (
  rw (← submit_given qos) (
      submit_limit _ _ _ (rest₃ qos)
      ∙ ap (λ o. kept_or_set o (limit_value (pop_first qos max_submit_jobs_aliases).0 (pos 100)))
          (limits_left qos _)),
  rw (← active_given qos) (
      active_limit _ _ _ (rest₃ qos)
      ∙ ap (λ o. kept_or_set o (limit_value (pop_first (rest₁ qos) max_jobs_aliases).0 (pos 10)))
          (limits_left qos _)),
  rw (← wall_given qos) (
      wall_limit _ _ _ (rest₃ qos)
      ∙ ap (λ o. kept_or_set o (limit_value (pop_first (rest₂ qos) max_wall_aliases).0 (pos 8640)))
          (limits_left qos _)),
)
