-- ===== src/Slurmrestd/JobStates/Count.antt =====
-- What the counts are: one for each job of the partition, under its base state.
use slurm_web_plus.Prelude.{
  ℕ, suc, ◌+◌, String, true, List, [], ◌∷◌, ◌==◌, if◌then◌else◌, elem, Option, ◌≡◌, refl, ◌∙◌,
  arith, eq_iff, Bool-cases, inl, inr,
}
use slurm_web_plus.Prelude.Dict.{Dict, get, has, or_else}
use slurm_web_plus.Slurmrestd.Partition.{in_partition}
use slurm_web_plus.Slurmrestd.JobStates.{
  Job, base_states, zero_counts, find_state, bump, Counts, count_job, count_jobs, jobs_states,
}

-- The specification: the jobs of the partition whose base state is the given one, and all of them.
abbrev pub in_state : Option String → String → List Job → ℕ
in_state partition state [] = 0
in_state partition state (job ∷ jobs) =
    (if in_partition partition job.partition
      then (if find_state base_states job.job_state == state then 1 else 0)
      else 0)
    + in_state partition state jobs

abbrev pub selected : Option String → List Job → ℕ
selected partition [] = 0
selected partition (job ∷ jobs) =
    (if in_partition partition job.partition then 1 else 0) + selected partition jobs

abbrev pub sum_counts : Dict ℕ → ℕ
sum_counts [] = 0
sum_counts ((k, n) ∷ d) = n + sum_counts d

abbrev pub count_of : String → Dict ℕ → ℕ
count_of state d = or_else 0 (get state d)

has-bump : (k j : String) (d : Dict ℕ) → has k (bump j d) ≡ has k d
unfolding has bump
has-bump k j [] = refl
has-bump k j ((i, n) ∷ d) = ground (arith, has-bump k j d)

sum_counts-bump :
    (k : String) (d : Dict ℕ) → has k d ≡ true → sum_counts (bump k d) ≡ suc (sum_counts d)
unfolding has bump
sum_counts-bump k [] h = cc
sum_counts-bump k ((i, n) ∷ d) h = ground (arith, sum_counts-bump k d, eq_iff i k)

count_of-bump :
    (j k : String) (d : Dict ℕ)
    → has k d ≡ true
    → count_of j (bump k d) ≡ (if k == j then 1 else 0) + count_of j d
unfolding has get bump
count_of-bump j k [] h = cc
count_of-bump j k ((i, n) ∷ d) h =
    ground (arith, count_of-bump j k d, eq_iff i k, eq_iff i j, eq_iff k j)

-- The dictionary has every state that can be found.
abbrev HasStates : List (String × String) → Dict ℕ → Type 0
HasStates [] d = has "unknown" d ≡ true
HasStates ((state, upper) ∷ states) d = (has state d ≡ true) × HasStates states d

has-find_state :
    (states : List (String × String)) (job_state : List String) (d : Dict ℕ)
    → HasStates states d
    → has (find_state states job_state) d ≡ true
unfolding find_state
has-find_state [] job_state d h = h
has-find_state ((state, upper) ∷ states) job_state d h = elim (Bool-cases (elem upper job_state)) [
  | inl e ↦ rw e h.0
  | inr e ↦ rw e (has-find_state states job_state d h.1)
]

HasStates-bump :
    (states : List (String × String)) (k : String) (d : Dict ℕ)
    → HasStates states d
    → HasStates states (bump k d)
HasStates-bump [] k d h = has-bump "unknown" k d ∙ h
HasStates-bump ((state, upper) ∷ states) k d h =
    (has-bump state k d ∙ h.0, HasStates-bump states k d h.1)

module _ (job : Job) (c : Counts) where
  counted-HasStates : HasStates base_states c.jobs → HasStates base_states (count_job job c).jobs
  unfolding count_job
  counted-HasStates h = HasStates-bump base_states (find_state base_states job.job_state) c.jobs h

  counted_total : (count_job job c).total ≡ c.total + 1
  unfolding count_job
  counted_total = refl

  counted_sum :
      HasStates base_states c.jobs → sum_counts (count_job job c).jobs ≡ suc (sum_counts c.jobs)
  unfolding count_job
  counted_sum h =
      sum_counts-bump (find_state base_states job.job_state) c.jobs
        (has-find_state base_states job.job_state c.jobs h)

  counted_each :
      (state : String)
      → HasStates base_states c.jobs
      → count_of state (count_job job c).jobs
        ≡ (if find_state base_states job.job_state == state then 1 else 0) + count_of state c.jobs
  unfolding count_job
  counted_each state h =
      count_of-bump state (find_state base_states job.job_state) c.jobs
        (has-find_state base_states job.job_state c.jobs h)

-- Counting from any counts adds to the total, to the sum and to each count.
record Adds (partition : Option String) (jobs : List Job) (c d : Counts) : Type 0 where
  total : d.total ≡ c.total + selected partition jobs
  sum : sum_counts d.jobs ≡ sum_counts c.jobs + selected partition jobs
  each :
      (state : String)
      → count_of state d.jobs ≡ count_of state c.jobs + in_state partition state jobs

count_jobs-Adds :
    (partition : Option String) (jobs : List Job) (c : Counts)
    → HasStates base_states c.jobs
    → Adds partition jobs c (count_jobs partition jobs c)
unfolding count_jobs
count_jobs-Adds partition [] c h = record {
  total = omega arith;
  sum = omega arith;
  each = λ state. omega arith;
}
count_jobs-Adds partition (job ∷ jobs) c h =
    elim (Bool-cases (in_partition partition job.partition)) [
      | inr e ↦
          let ih = count_jobs-Adds partition jobs c h in
          record {
            total = rw (e, count_jobs) (omega (arith, ih.total));
            sum = rw (e, count_jobs) (omega (arith, ih.sum));
            each = λ state. rw (e, count_jobs) (omega (arith, ih.each state));
          }
      | inl e ↦
          let ih = count_jobs-Adds partition jobs (count_job job c) (counted-HasStates job c h) in
          record {
            total = rw (e, count_jobs) (omega (arith, ih.total, counted_total job c));
            sum = rw (e, count_jobs) (omega (arith, ih.sum, counted_sum job c h));
            each = λ s. rw (e, count_jobs) (omega (arith, ih.each s, counted_each job c s h));
          }
    ]

count_of-zero :
    (state : String) (states : List (String × String)) → count_of state (zero_counts states) ≡ 0
unfolding get
count_of-zero state [] = refl
count_of-zero state ((s, upper) ∷ states) = ground (arith, count_of-zero state states)

-- What the counting should give.
pub record IsCount (partition : Option String) (jobs : List Job) (c : Counts) : Type 0 where
  pub total : c.total ≡ selected partition jobs
  pub sum : sum_counts c.jobs ≡ c.total
  pub each : (state : String) → count_of state c.jobs ≡ in_state partition state jobs

-- Each state's count is the number of the partition's jobs whose first base state is that one, the
-- total is the number of the partition's jobs, and the counts add up to the total.
pub jobs_states-IsCount :
    (partition : Option String) (jobs : List Job)
    → IsCount partition jobs (jobs_states partition jobs)
unfolding jobs_states has
jobs_states-IsCount partition jobs =
    let start : Counts = record { jobs = zero_counts base_states; total = 0 } in
    let added = count_jobs-Adds partition jobs start (states_there tt) in
    record {
      total = omega (arith, added.total);
      sum = omega (arith, added.total, added.sum);
      each = λ state. omega (arith, added.each state, count_of-zero state base_states);
    }
  where
    states_there : Unit {0} → HasStates base_states (zero_counts base_states)
    states_there u = ground arith
