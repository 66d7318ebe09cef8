-- ===== src/Cache/Tests.antt =====
-- The theorems on the cache at a server that is a dictionary.
use slurm_web_plus.Prelude.{
  ◌==◌, ℕ, String, Bool, true, false, ◌=ᵇ◌, if◌then◌else◌, none, some, [], elem, ◌≡◌, ◌≢◌, ◌⊎◌,
  refl, arith, eq_iff,
}
use slurm_web_plus.Prelude.Dict.{Dict, get, assign, remove, get-assign, get-remove}
use slurm_web_plus.Prelude.Result.{ok}
use slurm_web_plus.Cache.Redis.{Redis}
use slurm_web_plus.Cache.Service.{command, and_then, put, fetch, forget, count_miss, count_hit}
use slurm_web_plus.Cache.Keys.{Read, jobs, Settings, job_submit}
use slurm_web_plus.Cache.Cached.{
  on_miss, after_fetch, cached, forget_all, invalidate_cached_keys, read, write,
}
use slurm_web_plus.Cache.Distinct.{key_of-injective}
use slurm_web_plus.Cache.Coherence.{World, IsCoherent, read-IsCoherent}
use slurm_web_plus.Cache.Fresh.{IsUp, read_fresh, read_up}
use slurm_web_plus.Cache.Writes.{Changes, write-IsCoherent}

-- `set` with an expiration, which must not be 0.
abbrev set_text : String → String → ℕ → Dict String → Bool × Dict String
set_text k v n d = if n =ᵇ 0 then (false, d) else (true, assign k v d)

get_lem :
    (k : String) (d : Dict String) (b : String) → some (get k d) ≡ some (some b) → get k d ≡ some b
get_lem k d b h = cc

set_lem :
    (k j v : String) (n : ℕ) (d : Dict String) (b : String)
    → get j (set_text k v n d).1 ≡ some b
    → (get j d ≡ some b) ⊎ ((j ≡ k) × (b ≡ v))
set_lem k j v n d b h = ground (arith, get-assign k j v d, eq_iff k j)

assign_other :
    (k j v : String) (d : Dict String) (b : String)
    → k ≢ j
    → get j (assign k v d) ≡ some b
    → get j d ≡ some b
assign_other k j v d b h e = ground (arith, get-assign k j v d, eq_iff k j)

remove_lem :
    (k j : String) (d : Dict String) (b : String) → get j (remove k d) ≡ some b → get j d ≡ some b
remove_lem k j d b e = ground (arith, get-remove k j d)

remove_done : (k : String) (d : Dict String) → get k (remove k d) ≡ none
remove_done k d = ground (arith, get-remove k k d, eq_iff k k)

abbrev server : Redis
server = record {
  Db = Dict String;
  Bytes = String;
  Value = String;
  dumps = λ v. v;
  loads = λ b. b;
  is_none = λ v. v == "None";
  lookup = λ k d. get k d;
  get = λ k d. some (get k d);
  set = λ k v n d. set_text k v n d;
  delete = λ k d. (true, remove k d);
  incr = λ k d. (true, assign k "1" d);
  sadd = λ k m d. (true, assign k m d);
  loads-dumps = λ v. refl;
  get_lookup = λ k d b h. get_lem k d b h;
  set_lookup = λ k j v n d b h. set_lem k j v n d b h;
  delete_lookup = λ k j d b h. remove_lem k j d b h;
  delete_done = λ k d h. remove_done k d;
  incr_lookup = λ k j d b h e. assign_other k j "1" d b h e;
  sadd_lookup = λ k m j d b h e. assign_other k j m d b h e;
}

set_up_lem : (k b : String) (n : ℕ) (d : Dict String) → n ≢ 0 → (set_text k b n d).0 ≡ true
set_up_lem k b n d h = ground arith

server-IsUp : IsUp server
server-IsUp = record {
  get_up = λ k d. refl;
  set_up = λ k b n d h. set_up_lem k b n d h;
  incr_up = λ k d. refl;
  sadd_up = λ k m d. refl;
}

abbrev settings : Settings
settings = record {
  enabled = true;
  jobs = 30;
  job = 10;
  nodes = 30;
  node = 10;
  partitions = 60;
  accounts = 60;
  associations = 60;
  reservations = 60;
  qos = 60;
}

abbrev before : World server
before r = ok "old"

-- A job was submitted.
abbrev later : World server
later Read.jobs = ok "new"
later Read.jobs_unfiltered = ok "new"
later r = ok "old"

-- An empty cache is coherent.
empty-IsCoherent : IsCoherent server before []
unfolding get
empty-IsCoherent r b h = cc (h)

-- The second read is answered from the cache, although slurmrestd has another answer by then.
second_read :
    (read server settings jobs (ok "new") (read server settings jobs (ok "old") []).1).0 ≡ ok "old"
unfolding read cached after_fetch on_miss fetch put count_miss count_hit command and_then get assign
second_read = refl

read_value : (read server settings jobs (before jobs) []).0 ≡ ok "old"
unfolding read cached after_fetch on_miss fetch put count_miss count_hit command and_then get assign
read_value = refl

read-IsCoherent_example : IsCoherent server before (read server settings jobs (before jobs) []).1
read-IsCoherent_example = read-IsCoherent server settings before jobs [] empty-IsCoherent

read_fresh_example : before jobs ≡ ok "old"
read_fresh_example = read_fresh server before jobs "old" [] empty-IsCoherent settings read_value

read_up_example : (read server settings jobs (before jobs) []).0 ≡ ok "old"
read_up_example =
    read_up server settings before jobs "old" [] server-IsUp empty-IsCoherent
      (λ e. omega (arith, e)) refl

-- The cache after a read.
warm-IsCoherent : IsCoherent server before (read server settings jobs (before jobs) []).1
warm-IsCoherent = read-IsCoherent server settings before jobs [] empty-IsCoherent

later-Changes : Changes server job_submit before later
unfolding elem
later-Changes Read.jobs h = cc (h)
later-Changes Read.jobs_unfiltered h = cc (h)
later-Changes r h = refl

submitted :
    (write server settings job_submit (ok "42") (read server settings jobs (before jobs) []).1).0
    ≡ ok "42"
unfolding read cached after_fetch on_miss fetch put count_miss count_hit command and_then get assign
    write invalidate_cached_keys forget_all forget remove
submitted = refl

write-IsCoherent_example :
    IsCoherent server later
      (write server settings job_submit (ok "42") (read server settings jobs (before jobs) []).1).1
write-IsCoherent_example =
    write-IsCoherent server settings job_submit before later (ok "42") "42"
      (read server settings jobs (before jobs) []).1 refl warm-IsCoherent later-Changes submitted

key_of-injective_example : Read.job "7" ≡ Read.job "7"
key_of-injective_example = key_of-injective (Read.job "7") (Read.job "7") refl
