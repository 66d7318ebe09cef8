-- ===== src/Hotspots/Ranking.antt =====
-- What the list of hotspot events promises: which events, their number and their order.
use slurm_web_plus.Prelude.{
  zero, drop, ◌++◌, ◌⊎◌, refl, sym, ap, ◌∙◌, subst, ℕ, suc, ◌≤◌, String, Bool, true, false, List,
  [], ◌∷◌, take, length, length-take, All, ◌≡◌, inl, inr, arith,
}
use slurm_web_plus.Prelude.Int.{ℤ, pos, pos_part}
use slurm_web_plus.Prelude.Result.{ok}
use slurm_web_plus.Prelude.SortBy.{
  count, count-sort_by, sort_by, IsOrdered, sort_by-IsOrdered, All-sort_by, All-take,
}
use slurm_web_plus.Hotspots.Runs.{hot_runs, events_of_runs}
use slurm_web_plus.Hotspots.Loop.{extract-eq-runs}
use slurm_web_plus.Hotspots.{
  Usage, Sample, Event, Setting, Metrics, earlier, extract_events, extract_metrics, key_le,
  ranks_before, build_hotspot_events_from_metric_series,
}
use slurm_web_plus.Hotspots.Within.{Within, extract_metrics-Within}

module _ {V : Type 0} ⦃u : Usage V⦄ where
  ranks_before_total : (a b : Event V) → ranks_before a b ≡ false → ranks_before b a ≡ true
  unfolding key_le
  ranks_before_total a b h = ground (arith, u.at_most_total b.peak_usage a.peak_usage)

  ranks_before_trans :
      (a b c : Event V)
      → ranks_before a b ≡ true
      → ranks_before b c ≡ true
      → ranks_before a c ≡ true
  unfolding key_le
  ranks_before_trans a b c h k =
      ground (arith, u.at_most_trans c.peak_usage b.peak_usage a.peak_usage)

  -- The events of the runs of hot samples of each node, for each metric.
  abbrev pub node_events : V → ℕ → String → List (String × List (Sample V)) → List (Event V)
  node_events threshold step_seconds metric_name [] = []
  node_events threshold step_seconds metric_name ((node_name, values) ∷ series) =
      let k : Setting V = record {
        metric_name = metric_name;
        node_name = node_name;
        threshold = threshold;
        step_seconds = step_seconds;
      } in
      events_of_runs k (hot_runs k (sort_by earlier values))
      ++ node_events threshold step_seconds metric_name series

  abbrev pub run_events : V → ℕ → Metrics V → List (Event V)
  run_events threshold step_seconds [] = []
  run_events threshold step_seconds ((metric_name, series) ∷ metrics) =
      node_events threshold step_seconds metric_name series
      ++ run_events threshold step_seconds metrics

  extract_events-eq-runs :
      (threshold : V) (step_seconds : ℕ) (metric_name : String)
      (series : List (String × List (Sample V)))
      → extract_events threshold step_seconds metric_name series
        ≡ node_events threshold step_seconds metric_name series
  unfolding extract_events
  extract_events-eq-runs threshold step_seconds metric_name [] = refl
  extract_events-eq-runs threshold step_seconds metric_name ((node_name, values) ∷ series) = cc (
    (extract-eq-runs _ (sort_by earlier values)).0,
    extract_events-eq-runs threshold step_seconds metric_name series,
  )

  extract_metrics-eq-runs :
      (threshold : V) (step_seconds : ℕ) (metrics : Metrics V)
      → extract_metrics threshold step_seconds metrics ≡ run_events threshold step_seconds metrics
  unfolding extract_metrics
  extract_metrics-eq-runs threshold step_seconds [] = refl
  extract_metrics-eq-runs threshold step_seconds ((metric_name, series) ∷ metrics) = cc (
    extract_events-eq-runs threshold step_seconds metric_name series,
    extract_metrics-eq-runs threshold step_seconds metrics,
  )

  -- Two lists of the same events, each as many times: no test tells them apart.
  abbrev pub SameEvents : List (Event V) → List (Event V) → Type 0
  SameEvents es fs = (p : Event V → Bool) → count p es ≡ count p fs

  take-drop_join : (n : ℕ) (es : List (Event V)) → es ≡ take n es ++ drop n es
  take-drop_join zero es = refl
  take-drop_join (suc n) [] = refl
  take-drop_join (suc n) (e ∷ es) = ap (λ l. e ∷ l) (take-drop_join n es)

  take_full : (n : ℕ) (es : List (Event V)) → (drop n es ≡ []) ⊎ (length (take n es) ≡ n)
  take_full zero es = inr refl
  take_full (suc n) [] = inl refl
  take_full (suc n) (e ∷ es) = elim (take_full n es) [
    | inl h ↦ inl h
    | inr h ↦ inr (omega (arith, h))
  ]

  -- For a positive step the function returns events. With the events that it leaves out they are those
  -- of the runs of hot samples, each as many times, in the order of the ranking by start, duration and
  -- peak, highest first. They are at most as many as the limit, none for a negative one, and some
  -- are left out only when there are as many as the limit. Each starts no later than it ends, lasts
  -- from its start to its end and one step more, and has a rounded peak of the rounded threshold or
  -- more.
  pub hotspots-Within :
      (metrics : Metrics V) (threshold : V) (n : ℕ) (limit : ℤ)
      → (events : List (Event V)) × (rest : List (Event V))
        × (build_hotspot_events_from_metric_series metrics threshold (pos (suc n)) limit
            ≡ ok events)
        × SameEvents (events ++ rest) (run_events threshold (suc n) metrics)
        × IsOrdered ranks_before (events ++ rest)
        × (length events ≤ pos_part limit)
        × ((rest ≡ []) ⊎ (length events ≡ pos_part limit))
        × All (Within threshold (suc n)) events
  unfolding build_hotspot_events_from_metric_series
  hotspots-Within metrics threshold n limit =
      let found : List (Event V) = extract_metrics threshold (suc n) metrics in
      let best : List (Event V) = sort_by ranks_before found in
      let joined : best ≡ take (pos_part limit) best ++ drop (pos_part limit) best =
        take-drop_join (pos_part limit) best in
      (
        take (pos_part limit) best,
        drop (pos_part limit) best,
        ground arith,
        λ p.
            ap (count p) (sym joined)
            ∙ count-sort_by p ranks_before found
            ∙ ap (count p) (extract_metrics-eq-runs threshold (suc n) metrics),
        subst (IsOrdered ranks_before) joined
            (sort_by-IsOrdered ranks_before ranks_before_total ranks_before_trans found),
        length-take (pos_part limit) best,
        take_full (pos_part limit) best,
        All-take _ (pos_part limit) best
            (All-sort_by _ ranks_before found (extract_metrics-Within threshold (suc n) metrics)),
      )
