-- ===== src/Hotspots/Loop.antt =====
-- One round of the loop of `_extract_events` at each of its branches, and the loop as a whole.
use slurm_web_plus.Prelude.{
  ℕ, true, false, Option, none, some, List, [], ◌∷◌, filter, ◌≡◌, ap, inl, inr, sym, ◌∙◌, arith,
  Bool-cases,
}
use slurm_web_plus.Hotspots.{
  Usage, Sample, Event, Span, Setting, gap_break, is_hot, event_of, absorb, extract, started,
}
use slurm_web_plus.Hotspots.Runs.{
  hot_runs, events_of_runs, resumed, opened, closed, resumed_joined, resumed_apart, continued-hot,
  events-hot, joins_broken, joins_near, hot_runs_cold, resumed-last, events-no_samples, concat,
  hot_runs-cover,
}

module _ {V : Type 0} ⦃u : Usage V⦄ where
  extract_cold :
      (k : Setting V) (t : Option ℕ) (y : Sample V) (ys : List (Sample V))
      → is_hot k y ≡ false
      → extract k (closed t) (y ∷ ys) ≡ extract k (closed (some y.timestamp_ms)) ys
  unfolding extract
  extract_cold k t y ys cold = ground arith

  extract_opens :
      (k : Setting V) (t : Option ℕ) (y z : Sample V) (zs : List (Sample V))
      → is_hot k y ≡ true
      → extract k (closed t) (y ∷ z ∷ zs) ≡ extract k (opened (absorb y none)) (z ∷ zs)
  unfolding extract
  extract_opens k t y z zs hot = ground arith

  extract_single :
      (k : Setting V) (t : Option ℕ) (y : Sample V)
      → is_hot k y ≡ true
      → extract k (closed t) (y ∷ []) ≡ event_of k (absorb y none) ∷ []
  unfolding extract
  extract_single k t y hot = ground arith

  extract_broken :
      (k : Setting V) (s : Span V) (y : Sample V) (ys : List (Sample V))
      → gap_break k.step_seconds (some s.event_end) y.timestamp_ms ≡ true
      → extract k (opened s) (y ∷ ys)
        ≡ event_of k s ∷ extract k (closed (some s.event_end)) (y ∷ ys)
  unfolding extract
  extract_broken k s y ys broken = ground arith

  extract_ends :
      (k : Setting V) (s : Span V) (y : Sample V) (ys : List (Sample V))
      → gap_break k.step_seconds (some s.event_end) y.timestamp_ms ≡ false
      → is_hot k y ≡ false
      → extract k (opened s) (y ∷ ys) ≡ event_of k s ∷ extract k (closed (some y.timestamp_ms)) ys
  unfolding extract
  extract_ends k s y ys near cold = ground arith

  extract_goes_on :
      (k : Setting V) (s : Span V) (y z : Sample V) (zs : List (Sample V))
      → gap_break k.step_seconds (some s.event_end) y.timestamp_ms ≡ false
      → is_hot k y ≡ true
      → extract k (opened s) (y ∷ z ∷ zs) ≡ extract k (opened (absorb y (some s))) (z ∷ zs)
  unfolding extract
  extract_goes_on k s y z zs near hot = ground arith

  extract_last :
      (k : Setting V) (s : Span V) (y : Sample V)
      → gap_break k.step_seconds (some s.event_end) y.timestamp_ms ≡ false
      → is_hot k y ≡ true
      → extract k (opened s) (y ∷ []) ≡ event_of k (absorb y (some s)) ∷ []
  unfolding extract
  extract_last k s y near hot = ground arith

  -- From a round with no open event, and from one with an event that the last sample has reached.
  abbrev FromClosed : Setting V → List (Sample V) → Type 0
  FromClosed k xs = (t : Option ℕ) → extract k (closed t) xs ≡ events_of_runs k (hot_runs k xs)

  abbrev FromOpened : Setting V → List (Sample V) → Type 0
  FromOpened k [] = Unit
  FromOpened k (y ∷ ys) = (s : Span V) → extract k (opened s) (y ∷ ys) ≡ resumed k s (y ∷ ys)

  closed_round :
      (k : Setting V) (y : Sample V) (ys : List (Sample V))
      → FromClosed k ys
      → FromOpened k ys
      → FromClosed k (y ∷ ys)
  closed_round k y [] hc ho t = elim (Bool-cases (is_hot k y)) [
    | inl hot ↦
        extract_single k t y hot ∙ sym (events-hot k y [] hot ∙ resumed-last k (absorb y none))
    | inr cold ↦
        extract_cold k t y [] cold
        ∙ hc (some y.timestamp_ms)
        ∙ ap (events_of_runs k) (sym (hot_runs_cold k y [] cold))
  ]
  closed_round k y (z ∷ zs) hc ho t = elim (Bool-cases (is_hot k y)) [
    | inl hot ↦
        extract_opens k t y z zs hot ∙ ho (absorb y none) ∙ sym (events-hot k y (z ∷ zs) hot)
    | inr cold ↦
        extract_cold k t y (z ∷ zs) cold
        ∙ hc (some y.timestamp_ms)
        ∙ ap (events_of_runs k) (sym (hot_runs_cold k y (z ∷ zs) cold))
  ]

  opened_hot :
      (k : Setting V) (y : Sample V) (ys : List (Sample V))
      → FromOpened k ys
      → (s : Span V) → gap_break k.step_seconds (some s.event_end) y.timestamp_ms ≡ false
      → is_hot k y ≡ true
      → extract k (opened s) (y ∷ ys) ≡ resumed k (absorb y (some s)) ys
  opened_hot k y [] ho s near hot =
      extract_last k s y near hot ∙ sym (resumed-last k (absorb y (some s)))
  opened_hot k y (z ∷ zs) ho s near hot =
      extract_goes_on k s y z zs near hot ∙ ho (absorb y (some s))

  opened_round :
      (k : Setting V) (y : Sample V) (ys : List (Sample V))
      → FromClosed k ys
      → FromClosed k (y ∷ ys)
      → FromOpened k ys
      → FromOpened k (y ∷ ys)
  opened_round k y ys hc hc' ho s =
      elim (Bool-cases (gap_break k.step_seconds (some s.event_end) y.timestamp_ms)) [
        | inl broken ↦
            extract_broken k s y ys broken
            ∙ ap (λ (es : List (Event V)). event_of k s ∷ es) (hc' (some s.event_end))
            ∙ sym (resumed_apart k s (y ∷ ys) (joins_broken k s y ys broken))
        | inr near ↦ elim (Bool-cases (is_hot k y)) [
          | inl hot ↦
              opened_hot k y ys ho s near hot
              ∙ sym (continued-hot k s y ys hot)
              ∙ sym (resumed_joined k s (y ∷ ys) (joins_near k s y ys near ∙ hot))
          | inr cold ↦
              extract_ends k s y ys near cold
              ∙ ap (λ (es : List (Event V)). event_of k s ∷ es)
                  (hc (some y.timestamp_ms)
                    ∙ ap (events_of_runs k) (sym (hot_runs_cold k y ys cold)))
              ∙ sym (resumed_apart k s (y ∷ ys) (joins_near k s y ys near ∙ cold))
        ]
      ]

  rounds : (k : Setting V) (xs : List (Sample V)) → FromClosed k xs × FromOpened k xs
  unfolding extract
  rounds k [] = (λ t. sym (events-no_samples k), tt)
  rounds k (y ∷ ys) =
      let (hc, ho) = rounds k ys in
      let now : FromClosed k (y ∷ ys) = closed_round k y ys hc ho in
      (now, opened_round k y ys hc now ho)

  -- The events of a node are those of the runs of hot samples, for every threshold, step and list of
  -- samples; and the samples of the runs, in order, are the samples that are at or above the threshold.
  pub extract-eq-runs :
      (k : Setting V) (xs : List (Sample V))
      → (extract k started xs ≡ events_of_runs k (hot_runs k xs))
        × (concat (hot_runs k xs) ≡ filter (is_hot k) xs)
  extract-eq-runs k xs = ((rounds k xs).0 none, hot_runs-cover k xs)
