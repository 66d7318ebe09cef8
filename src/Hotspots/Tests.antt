-- ===== src/Hotspots/Tests.antt =====
-- The hotspot theorems at the series of two nodes, with usages in hundredths.
use slurm_web_plus.Prelude.{
  ◌++◌, ◌⊎◌, ℕ, ◌+◌, ◌*◌, ◌/◌, ◌≤◌, String, true, false, List, [], ◌∷◌, leb, length, filter, All,
  ◌≡◌, refl, arith,
}
use slurm_web_plus.Prelude.Int.{pos, negsuc}
use slurm_web_plus.Prelude.Result.{ok, err}
use slurm_web_plus.Prelude.SortBy.{IsOrdered}
use slurm_web_plus.Hotspots.{
  Usage, Sample, Event, Setting, Metrics, is_hot, extract, started, ranks_before, step_not_positive,
  build_hotspot_events_from_metric_series,
}
use slurm_web_plus.Hotspots.Runs.{concat, hot_runs, events_of_runs}
use slurm_web_plus.Hotspots.Loop.{extract-eq-runs}
use slurm_web_plus.Hotspots.Within.{Within}
use slurm_web_plus.Hotspots.Ranking.{SameEvents, run_events, hotspots-Within}

-- Hundredths, rounded half up.
abbrev to_tenth : ℕ → ℕ
to_tenth x = ((x + 5) / 10) * 10

to_tenth_mono : (a b : ℕ) → leb a b ≡ true → leb (to_tenth a) (to_tenth b) ≡ true
to_tenth_mono a b h = ground arith

leb_total : (a b : ℕ) → leb a b ≡ false → leb b a ≡ true
leb_total a b h = ground arith

leb_trans : (a b c : ℕ) → leb a b ≡ true → leb b c ≡ true → leb a c ≡ true
leb_trans a b c h k = ground arith

instance abbrev hundredths : Usage ℕ
hundredths = record {
  at_most = leb;
  round_tenth = to_tenth;
  at_most_total = leb_total;
  at_most_trans = leb_trans;
  round_tenth_mono = to_tenth_mono;
}

abbrev at : ℕ → ℕ → Sample ℕ
at seconds value = record { timestamp_ms = seconds * 1000; value = value }

-- Hot at 60, 120 and, after a gap of four minutes, at 360; cold at 420; hot at 480.
abbrev busy : List (Sample ℕ)
busy = at 60 9000 ∷ at 120 9512 ∷ at 360 8500 ∷ at 420 1000 ∷ at 480 8000 ∷ []

abbrev metrics : Metrics ℕ
metrics = ("cpu", ("n1", at 120 9512 ∷ at 60 9000 ∷ []) ∷ ("n2", busy) ∷ []) ∷ []

abbrev setting : Setting ℕ
setting = record { metric_name = "cpu"; node_name = "n2"; threshold = 8000; step_seconds = 60 }

abbrev event : String → ℕ → ℕ → ℕ → ℕ → Event ℕ
event node start end duration peak = record {
  node = node;
  metric = "cpu";
  start = start * 1000;
  end = end * 1000;
  duration_seconds = duration;
  peak_usage = peak;
}

three_events :
    extract setting started busy
    ≡ event "n2" 60 120 120 9510 ∷ event "n2" 360 360 60 8500 ∷ event "n2" 480 480 60 8000 ∷ []
unfolding extract
three_events = refl

best_two :
    build_hotspot_events_from_metric_series metrics 8000 (pos 60) (pos 2)
    ≡ ok (event "n2" 480 480 60 8000 ∷ event "n2" 360 360 60 8500 ∷ [])
unfolding build_hotspot_events_from_metric_series
best_two = refl

no_limit : build_hotspot_events_from_metric_series metrics 8000 (pos 60) (negsuc 3) ≡ ok []
unfolding build_hotspot_events_from_metric_series
no_limit = refl

no_step :
    build_hotspot_events_from_metric_series metrics 8000 (pos 0) (pos 2) ≡ err step_not_positive
unfolding build_hotspot_events_from_metric_series
no_step = refl

extract-eq-runs_example :
    (extract setting started busy ≡ events_of_runs setting (hot_runs setting busy))
    × (concat (hot_runs setting busy) ≡ filter (is_hot setting) busy)
extract-eq-runs_example = extract-eq-runs setting busy

hotspots-Within_example :
    (events : List (Event ℕ)) × (rest : List (Event ℕ)) × (build_hotspot_events_from_metric_series
        metrics 8000
        (pos 60)
        (pos 2)
      ≡ ok events)
    × SameEvents (events ++ rest) (run_events 8000 60 metrics)
    × IsOrdered ranks_before (events ++ rest)
    × (length events ≤ 2)
    × ((rest ≡ []) ⊎ (length events ≡ 2))
    × All (Within 8000 60) events
hotspots-Within_example = hotspots-Within metrics 8000 59 (pos 2)
