-- ===== src/Hotspots/Within.antt =====
-- The numbers of each hotspot event: its times, its duration and its peak.
use slurm_web_plus.Prelude.{
  ℕ, ◌+◌, ◌≤◌, String, Bool, true, false, not, ◌||◌, Option, none, some, List, [], ◌∷◌,
  if◌then◌else◌, All, All-append, ◌≡◌, inl, inr, arith, Bool-cases,
}
use slurm_web_plus.Prelude.SortBy.{sort_by, IsOrdered, sort_by-IsOrdered}
use slurm_web_plus.Hotspots.{
  Usage, Sample, Event, Span, Progress, Setting, Metrics, seconds_between, gap_break, is_last,
  earlier, is_hot, event_of, close, absorb, step, extract, started, extract_events, extract_metrics,
}

module _ {V : Type 0} ⦃u : Usage V⦄ where
  -- An event of this threshold and step.
  abbrev pub Within : V → ℕ → Event V → Type 0
  Within threshold step_seconds e =
      (e.start ≤ e.end)
      × (e.duration_seconds ≡ seconds_between e.start e.end + step_seconds)
      × (u.at_most (u.round_tenth threshold) e.peak_usage ≡ true)

  -- An open event is above the threshold, and no sample that is left is older.
  abbrev IsOpen : V → Option (Span V) → List (Sample V) → Type 0
  IsOpen threshold none xs = Unit
  IsOpen threshold (some s) xs =
      (s.event_start ≤ s.event_end)
      × (u.at_most threshold s.peak ≡ true)
      × All (λ x. s.event_end ≤ x.timestamp_ms) xs

  event_of-Within :
      (k : Setting V) (s : Span V) (xs : List (Sample V))
      → IsOpen k.threshold (some s) xs
      → Within k.threshold k.step_seconds (event_of k s)
  unfolding event_of
  event_of-Within k s xs h = (h.0, omega arith, u.round_tenth_mono k.threshold s.peak h.1)

  close-Within :
      (k : Setting V) (e : Option (Span V)) (xs : List (Sample V))
      → IsOpen k.threshold e xs
      → All (Within k.threshold k.step_seconds) (close k e)
  unfolding close
  close-Within k none xs h = tt
  close-Within k (some s) xs h = (event_of-Within k s xs h, tt)

  later_samples :
      (x : Sample V) (xs : List (Sample V))
      → All (λ y. earlier x y ≡ true) xs
      → All (λ y. x.timestamp_ms ≤ y.timestamp_ms) xs
  later_samples x [] h = tt
  later_samples x (y ∷ ys) h = (ground (arith, h.0), later_samples x ys h.1)

  absorb-IsOpen :
      (k : Setting V) (x : Sample V) (e : Option (Span V)) (xs : List (Sample V))
      → is_hot k x ≡ true
      → IsOrdered earlier (x ∷ xs)
      → IsOpen k.threshold e (x ∷ xs)
      → IsOpen k.threshold (some (absorb x e)) xs
  unfolding absorb
  absorb-IsOpen k x none xs hot o h = (omega arith, hot, later_samples x xs o.0)
  absorb-IsOpen k x (some s) xs hot o h = (omega arith, ground (arith, hot), later_samples x xs o.0)

  IsOpen-tail :
      (threshold : V) (e : Option (Span V)) (x : Sample V) (xs : List (Sample V))
      → IsOpen threshold e (x ∷ xs)
      → IsOpen threshold e xs
  IsOpen-tail threshold none x xs h = tt
  IsOpen-tail threshold (some s) x xs h = (h.0, h.1, h.2.1)

  cut-IsOpen :
      (threshold : V) (b : Bool) (e : Option (Span V)) (xs : List (Sample V))
      → IsOpen threshold e xs
      → IsOpen threshold (if b then none else e) xs
  cut-IsOpen threshold true e xs h = tt
  cut-IsOpen threshold false e xs h = h

  closes-Within :
      (k : Setting V) (b : Bool) (e : Option (Span V)) (xs : List (Sample V))
      → IsOpen k.threshold e xs
      → All (Within k.threshold k.step_seconds) (if b then close k e else [])
  closes-Within k true e xs h = close-Within k e xs h
  closes-Within k false e xs h = tt

  sampled-IsOpen :
      (k : Setting V) (x : Sample V) (e : Option (Span V)) (xs : List (Sample V))
      → IsOrdered earlier (x ∷ xs)
      → IsOpen k.threshold e (x ∷ xs)
      → IsOpen k.threshold (if is_hot k x then some (absorb x e) else e) xs
  sampled-IsOpen k x e xs o h = elim (Bool-cases (is_hot k x)) [
    | inl hot ↦ rw hot (absorb-IsOpen k x e xs hot o h)
    | inr cold ↦ rw cold (IsOpen-tail k.threshold e x xs h)
  ]

  -- One round keeps the open event in order, and what it appends is within the bounds.
  step-IsOpen :
      (k : Setting V) (last : Bool) (x : Sample V) (xs : List (Sample V)) (p : Progress V)
      → IsOrdered earlier (x ∷ xs)
      → IsOpen k.threshold p.event (x ∷ xs)
      → let (p', found) = step k last x p in
        IsOpen k.threshold p'.event xs × All (Within k.threshold k.step_seconds) found
  unfolding step
  step-IsOpen k last x xs p o h =
      let broken : Bool = gap_break k.step_seconds p.previous_ts x.timestamp_ms in
      let ends : Bool = not (is_hot k x) || last in
      let kept : Option (Span V) = if broken then none else p.event in
      let event : Option (Span V) = if is_hot k x then some (absorb x kept) else kept in
      let open_now : IsOpen k.threshold event xs =
        sampled-IsOpen k x kept xs o (cut-IsOpen k.threshold broken p.event (x ∷ xs) h) in
      (
        cut-IsOpen k.threshold ends event xs open_now,
        All-append _ (if broken then close k p.event else []) (if ends then close k event else [])
            (closes-Within k broken p.event (x ∷ xs) h) (closes-Within k ends event xs open_now),
      )

  extract-Within :
      (k : Setting V) (xs : List (Sample V)) (p : Progress V)
      → IsOrdered earlier xs
      → IsOpen k.threshold p.event xs
      → All (Within k.threshold k.step_seconds) (extract k p xs)
  unfolding extract
  extract-Within k [] p o h = tt
  extract-Within k (x ∷ xs) p o h =
      let (p', found) = step k (is_last xs) x p in
      let (open_now, found-Within) = step-IsOpen k (is_last xs) x xs p o h in
      All-append _ found (extract k p' xs) found-Within (extract-Within k xs p' o.1 open_now)

  earlier_total : (a b : Sample V) → earlier a b ≡ false → earlier b a ≡ true
  earlier_total a b h = ground arith

  earlier_trans : (a b c : Sample V) → earlier a b ≡ true → earlier b c ≡ true → earlier a c ≡ true
  earlier_trans a b c h k = ground arith

  extract_events-Within :
      (threshold : V) (step_seconds : ℕ) (metric_name : String)
      (series : List (String × List (Sample V)))
      → All
          (Within threshold step_seconds)
          (extract_events threshold step_seconds metric_name series)
  unfolding extract_events
  extract_events-Within threshold step_seconds metric_name [] = tt
  extract_events-Within threshold step_seconds metric_name ((node_name, values) ∷ series) =
      All-append _ _ _
        (extract-Within _ (sort_by earlier values) started
          (sort_by-IsOrdered earlier earlier_total earlier_trans values) tt)
        (extract_events-Within threshold step_seconds metric_name series)

  pub extract_metrics-Within :
      (threshold : V) (step_seconds : ℕ) (metrics : Metrics V)
      → All (Within threshold step_seconds) (extract_metrics threshold step_seconds metrics)
  unfolding extract_metrics
  extract_metrics-Within threshold step_seconds [] = tt
  extract_metrics-Within threshold step_seconds ((metric_name, series) ∷ metrics) =
      All-append _ _ _ (extract_events-Within threshold step_seconds metric_name series)
        (extract_metrics-Within threshold step_seconds metrics)
