-- ===== src/Hotspots.antt =====
-- slurmweb/metrics/hotspots.py: the periods in which a node's metric stays above a threshold.
-- A timestamp is its number of milliseconds; ISO texts of UTC times order as the times do.
pub mod Runs
pub mod Loop
pub mod Within
pub mod Ranking
mod Tests
use slurm_web_plus.Prelude.{
  ℕ, suc, ◌+◌, ◌-◌, ◌*◌, ◌/◌, max, String, Bool, true, false, not, ◌&&◌, ◌||◌, Option, none, some,
  List, [], ◌∷◌, ◌++◌, ltb, leb, ◌=ᵇ◌, if◌then◌else◌, take, ◌≡◌,
}
use slurm_web_plus.Prelude.Int.{ℤ, pos, negsuc, pos_part}
use slurm_web_plus.Prelude.Result.{Result, ok, err}
use slurm_web_plus.Prelude.SortBy.{sort_by}

-- The floating point numbers of a metric: `a <= b` and `round(a, 1)`. No sample is NaN.
pub record Usage (V : Type 0) : Type 0 where
  pub at_most : V → V → Bool
  pub round_tenth : V → V
  pub at_most_total : (a b : V) → at_most a b ≡ false → at_most b a ≡ true
  pub at_most_trans : (a b c : V) → at_most a b ≡ true → at_most b c ≡ true → at_most a c ≡ true
  pub round_tenth_mono :
      (a b : V) → at_most a b ≡ true → at_most (round_tenth a) (round_tenth b) ≡ true

-- An item `[timestamp_ms, value]` of a series.
pub record Sample (V : Type 0) : Type 0 where
  pub timestamp_ms : ℕ
  pub value : V

pub record Event (V : Type 0) : Type 0 where
  pub node : String
  pub metric : String
  pub start : ℕ
  pub end : ℕ
  pub duration_seconds : ℕ
  pub peak_usage : V

-- The open event: `event_start`, `event_end` and `peak`, which are set and reset together.
pub record Span (V : Type 0) : Type 0 where
  pub event_start : ℕ
  pub event_end : ℕ
  pub peak : V

-- What one round of the loop hands to the next.
pub record Progress (V : Type 0) : Type 0 where
  pub event : Option (Span V)
  pub previous_ts : Option ℕ

pub data Error : Type 0 where
  step_not_positive : Error

-- The arguments of the nested function that do not change in its loop.
pub record Setting (V : Type 0) : Type 0 where
  pub metric_name : String
  pub node_name : String
  pub threshold : V
  pub step_seconds : ℕ

-- `int((later - earlier).total_seconds())` of times that are not in the wrong order.
abbrev pub seconds_between : ℕ → ℕ → ℕ
seconds_between earlier later = (later - earlier) / 1000

unfoldable pub gap_break : ℕ → Option ℕ → ℕ → Bool
gap_break step_seconds none ts = false
gap_break step_seconds (some previous) ts = ltb (step_seconds * 2) (seconds_between previous ts)

abbrev pub is_last {ℓ} : {A : Type ℓ} → List A → Bool
is_last [] = true
is_last (x ∷ xs) = false

abbrev pub Metrics : Type 0 → Type 0
Metrics V = List (String × List (String × List (Sample V)))

module _ {V : Type 0} ⦃u : Usage V⦄ where
  abbrev pub earlier : Sample V → Sample V → Bool
  earlier a b = leb a.timestamp_ms b.timestamp_ms

  -- `value >= threshold`.
  abbrev pub is_hot : Setting V → Sample V → Bool
  is_hot k s = u.at_most k.threshold s.value

  -- `max(peak, value)`: the first of two that are equal.
  abbrev pub max_usage : V → V → V
  max_usage peak value = if u.at_most value peak then peak else value

  unfoldable pub event_of : Setting V → Span V → Event V
  event_of k s = record {
    node = k.node_name;
    metric = k.metric_name;
    start = s.event_start;
    end = s.event_end;
    duration_seconds =
        max (seconds_between s.event_start s.event_end + k.step_seconds) k.step_seconds;
    peak_usage = u.round_tenth s.peak;
  }

  -- The event that is appended when an open one ends.
  unfoldable pub close : Setting V → Option (Span V) → List (Event V)
  close k none = []
  close k (some s) = event_of k s ∷ []

  -- A hot sample opens an event or extends the open one.
  unfoldable pub absorb : Sample V → Option (Span V) → Span V
  absorb x none = record {
    event_start = x.timestamp_ms;
    event_end = x.timestamp_ms;
    peak = x.value;
  }
  absorb x (some s) = record s { event_end = x.timestamp_ms; peak = max_usage s.peak x.value }

  -- The body of the loop, with the events that it appends.
  unfoldable pub step : Setting V → Bool → Sample V → Progress V → Progress V × List (Event V)
  step k last x p =
      let broken = gap_break k.step_seconds p.previous_ts x.timestamp_ms in
      let closed = if broken then close k p.event else [] in
      let kept = if broken then none else p.event in
      let event = if is_hot k x then some (absorb x kept) else kept in
      let ends = not (is_hot k x) || last in
      (
        record { event = if ends then none else event; previous_ts = some x.timestamp_ms },
        closed ++ (if ends then close k event else []),
      )

  unfoldable pub extract : Setting V → Progress V → List (Sample V) → List (Event V)
  unfolding step gap_break close absorb event_of
  extract k p [] = []
  extract k p (x ∷ xs) = let (p', found) = step k (is_last xs) x p in found ++ extract k p' xs

  abbrev pub started : Progress V
  started = record { event = none; previous_ts = none }

  -- `_extract_events`: the loop over the nodes.
  unfoldable pub extract_events : V → ℕ → String → List (String × List (Sample V)) → List (Event V)
  unfolding extract sort_by
  extract_events threshold step_seconds metric_name [] = []
  extract_events threshold step_seconds metric_name ((node_name, values) ∷ series) =
      extract
        record {
          metric_name = metric_name;
          node_name = node_name;
          threshold = threshold;
          step_seconds = step_seconds;
        }
        started (sort_by earlier values)
      ++ extract_events threshold step_seconds metric_name series

  unfoldable pub extract_metrics : V → ℕ → Metrics V → List (Event V)
  unfolding extract_events
  extract_metrics threshold step_seconds [] = []
  extract_metrics threshold step_seconds ((metric_name, series) ∷ metrics) =
      extract_events threshold step_seconds metric_name series
      ++ extract_metrics threshold step_seconds metrics

  -- The sort key: start, then duration, then peak.
  unfoldable pub key_le : Event V → Event V → Bool
  key_le a b =
      ltb a.start b.start
      || (a.start =ᵇ b.start
          && (ltb a.duration_seconds b.duration_seconds
              || (a.duration_seconds =ᵇ b.duration_seconds && u.at_most a.peak_usage b.peak_usage)))

  -- `reverse=True`.
  abbrev pub ranks_before : Event V → Event V → Bool
  unfolding key_le
  ranks_before a b = key_le b a

  abbrev pub ranked : V → ℕ → ℤ → Metrics V → List (Event V)
  unfolding extract_metrics sort_by ranks_before
  ranked threshold step_seconds limit metrics =
      take (pos_part limit) (sort_by ranks_before (extract_metrics threshold step_seconds metrics))

  unfoldable pub build_hotspot_events_from_metric_series :
      Metrics V → V → ℤ → ℤ → Result Error (List (Event V))
  unfolding ranked
  build_hotspot_events_from_metric_series metrics threshold (negsuc n) limit = err step_not_positive
  build_hotspot_events_from_metric_series metrics threshold (pos n) limit =
      if leb n 0 then err step_not_positive else ok (ranked threshold n limit metrics)
