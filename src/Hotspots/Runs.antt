-- ===== src/Hotspots/Runs.antt =====
-- The loop of `_extract_events` against an independent reading: maximal runs of hot samples.
use slurm_web_plus.Prelude.{
  ℕ, ◌*◌, Bool, true, false, ◌&&◌, Option, none, some, List, [], ◌∷◌, ◌++◌, leb, if◌then◌else◌,
  filter, ◌≡◌, refl, ap, inl, inr, sym, ◌∙◌, arith, Bool-cases,
}
use slurm_web_plus.Hotspots.{
  Usage, Sample, Event, Span, Progress, Setting, seconds_between, gap_break, is_hot, event_of,
  absorb,
}

module _ {V : Type 0} ⦃u : Usage V⦄ where
  -- The sample after `x` is hot too and not more than two steps away.
  pub joins : Setting V → Sample V → List (Sample V) → Bool
  joins k x [] = false
  joins k x (y ∷ ys) =
      is_hot k y && leb (seconds_between x.timestamp_ms y.timestamp_ms) (k.step_seconds * 2)

  attach : Sample V → List (List (Sample V)) → List (List (Sample V))
  attach x [] = (x ∷ []) ∷ []
  attach x (r ∷ rs) = (x ∷ r) ∷ rs

  -- The hot samples, cut between two that are not neighbours or too far apart.
  pub hot_runs : Setting V → List (Sample V) → List (List (Sample V))
  unfolding joins attach
  hot_runs k [] = []
  hot_runs k (x ∷ xs) =
      let rest = hot_runs k xs in
      if is_hot k x then if joins k x xs then attach x rest else (x ∷ []) ∷ rest else rest

  -- A span from its samples: first and last time, and the highest value.
  pub span_from : Span V → List (Sample V) → Span V
  unfolding absorb
  span_from s [] = s
  span_from s (x ∷ xs) = span_from (absorb x (some s)) xs

  pub event_of_run : Setting V → List (Sample V) → List (Event V)
  unfolding span_from absorb
  event_of_run k [] = []
  event_of_run k (x ∷ xs) = event_of k (span_from (absorb x none) xs) ∷ []

  pub events_of_runs : Setting V → List (List (Sample V)) → List (Event V)
  unfolding event_of_run
  events_of_runs k [] = []
  events_of_runs k (r ∷ rs) = event_of_run k r ++ events_of_runs k rs

  -- With an open span, the first run goes on from it when its first sample is near enough.
  pub continued : Setting V → Span V → List (List (Sample V)) → List (Event V)
  unfolding span_from
  continued k s [] = event_of k s ∷ []
  continued k s (r ∷ rs) = event_of k (span_from s r) ∷ events_of_runs k rs

  pub at_end : Span V → Sample V
  at_end s = record { timestamp_ms = s.event_end; value = s.peak }

  pub resumed : Setting V → Span V → List (Sample V) → List (Event V)
  resumed k s xs =
      let rest = hot_runs k xs in
      if joins k (at_end s) xs then continued k s rest else event_of k s ∷ events_of_runs k rest

  abbrev pub opened : Span V → Progress V
  opened s = record { event = some s; previous_ts = some s.event_end }

  abbrev pub closed : Option ℕ → Progress V
  closed t = record { event = none; previous_ts = t }

  joins-at_end :
      (k : Setting V) (y : Sample V) (e : Option (Span V)) (ys : List (Sample V))
      → joins k (at_end (absorb y e)) ys ≡ joins k y ys
  unfolding joins at_end absorb
  joins-at_end k y none [] = refl
  joins-at_end k y (some s) [] = refl
  joins-at_end k y none (z ∷ ys) = refl
  joins-at_end k y (some s) (z ∷ ys) = refl

  hot_runs_step :
      (k : Setting V) (x : Sample V) (xs : List (Sample V))
      → is_hot k x ≡ true
      → hot_runs k (x ∷ xs)
        ≡ (if joins k x xs then attach x (hot_runs k xs) else (x ∷ []) ∷ hot_runs k xs)
  unfolding hot_runs
  hot_runs_step k x xs hot = rw hot refl

  continued-attach :
      (k : Setting V) (s : Span V) (y : Sample V) (rs : List (List (Sample V)))
      → continued k s (attach y rs) ≡ continued k (absorb y (some s)) rs
  unfolding continued attach events_of_runs
  continued-attach k s y [] = refl
  continued-attach k s y (r ∷ rs) = refl

  continued-single :
      (k : Setting V) (s : Span V) (y : Sample V) (rs : List (List (Sample V)))
      → continued k s ((y ∷ []) ∷ rs) ≡ event_of k (absorb y (some s)) ∷ events_of_runs k rs
  unfolding continued
  continued-single k s y rs = refl

  events-single :
      (k : Setting V) (y : Sample V) (rs : List (List (Sample V)))
      → events_of_runs k ((y ∷ []) ∷ rs) ≡ event_of k (absorb y none) ∷ events_of_runs k rs
  unfolding events_of_runs
  events-single k y rs = refl

  pub resumed_joined :
      (k : Setting V) (s : Span V) (xs : List (Sample V))
      → joins k (at_end s) xs ≡ true
      → resumed k s xs ≡ continued k s (hot_runs k xs)
  unfolding resumed
  resumed_joined k s xs e = rw e refl

  pub resumed_apart :
      (k : Setting V) (s : Span V) (xs : List (Sample V))
      → joins k (at_end s) xs ≡ false
      → resumed k s xs ≡ event_of k s ∷ events_of_runs k (hot_runs k xs)
  unfolding resumed
  resumed_apart k s xs e = rw e refl

  -- A hot sample that goes on from an open span.
  pub continued-hot :
      (k : Setting V) (s : Span V) (y : Sample V) (ys : List (Sample V))
      → is_hot k y ≡ true
      → continued k s (hot_runs k (y ∷ ys)) ≡ resumed k (absorb y (some s)) ys
  continued-hot k s y ys hot = elim (Bool-cases (joins k y ys)) [
    | inl e ↦
        rw (hot_runs_step k y ys hot, e)
          (continued-attach k s y (hot_runs k ys)
            ∙ sym (resumed_joined k (absorb y (some s)) ys (joins-at_end k y (some s) ys ∙ e)))
    | inr e ↦
        rw (hot_runs_step k y ys hot, e)
          (continued-single k s y (hot_runs k ys)
            ∙ sym (resumed_apart k (absorb y (some s)) ys (joins-at_end k y (some s) ys ∙ e)))
  ]

  events-attach :
      (k : Setting V) (y : Sample V) (rs : List (List (Sample V)))
      → events_of_runs k (attach y rs) ≡ continued k (absorb y none) rs
  unfolding continued attach events_of_runs
  events-attach k y [] = refl
  events-attach k y (r ∷ rs) = refl

  -- A hot sample that opens an event.
  pub events-hot :
      (k : Setting V) (y : Sample V) (ys : List (Sample V))
      → is_hot k y ≡ true
      → events_of_runs k (hot_runs k (y ∷ ys)) ≡ resumed k (absorb y none) ys
  events-hot k y ys hot = elim (Bool-cases (joins k y ys)) [
    | inl e ↦
        rw (hot_runs_step k y ys hot, e)
          (events-attach k y (hot_runs k ys)
            ∙ sym (resumed_joined k (absorb y none) ys (joins-at_end k y none ys ∙ e)))
    | inr e ↦
        rw (hot_runs_step k y ys hot, e)
          (events-single k y (hot_runs k ys)
            ∙ sym (resumed_apart k (absorb y none) ys (joins-at_end k y none ys ∙ e)))
  ]

  pub joins_broken :
      (k : Setting V) (s : Span V) (y : Sample V) (ys : List (Sample V))
      → gap_break k.step_seconds (some s.event_end) y.timestamp_ms ≡ true
      → joins k (at_end s) (y ∷ ys) ≡ false
  unfolding joins gap_break at_end
  joins_broken k s y ys broken = ground arith

  pub joins_near :
      (k : Setting V) (s : Span V) (y : Sample V) (ys : List (Sample V))
      → gap_break k.step_seconds (some s.event_end) y.timestamp_ms ≡ false
      → joins k (at_end s) (y ∷ ys) ≡ is_hot k y
  unfolding joins gap_break at_end
  joins_near k s y ys near = ground arith

  pub hot_runs_cold :
      (k : Setting V) (y : Sample V) (ys : List (Sample V))
      → is_hot k y ≡ false
      → hot_runs k (y ∷ ys) ≡ hot_runs k ys
  unfolding hot_runs
  hot_runs_cold k y ys cold = rw cold refl

  pub resumed-last : (k : Setting V) (s : Span V) → resumed k s [] ≡ event_of k s ∷ []
  unfolding resumed joins hot_runs events_of_runs
  resumed-last k s = refl

  pub events-no_samples : (k : Setting V) → events_of_runs k (hot_runs k []) ≡ []
  unfolding events_of_runs hot_runs
  events-no_samples k = refl

  -- The samples of the runs, in order.
  abbrev pub concat : List (List (Sample V)) → List (Sample V)
  concat [] = []
  concat (r ∷ rs) = r ++ concat rs

  no_samples_lem : (k : Setting V) → concat (hot_runs k []) ≡ []
  unfolding hot_runs
  no_samples_lem k = refl

  concat-attach :
      (x : Sample V) (rs : List (List (Sample V))) → concat (attach x rs) ≡ x ∷ concat rs
  unfolding attach
  concat-attach x [] = refl
  concat-attach x (r ∷ rs) = refl

  -- The runs hold the hot samples, each once and in order.
  pub hot_runs-cover :
      (k : Setting V) (xs : List (Sample V)) → concat (hot_runs k xs) ≡ filter (is_hot k) xs
  unfolding filter
  hot_runs-cover k [] = no_samples_lem k
  hot_runs-cover k (x ∷ xs) = elim (Bool-cases (is_hot k x)) [
    | inl hot ↦ elim (Bool-cases (joins k x xs)) [
      | inl e ↦
          rw (hot_runs_step k x xs hot, e, hot)
            (concat-attach x (hot_runs k xs)
              ∙ ap (λ (ys : List (Sample V)). x ∷ ys) (hot_runs-cover k xs))
      | inr e ↦
          rw (hot_runs_step k x xs hot, e, hot)
            (ap (λ (ys : List (Sample V)). x ∷ ys) (hot_runs-cover k xs))
    ]
    | inr cold ↦ rw (hot_runs_cold k x xs cold, cold) (hot_runs-cover k xs)
  ]
