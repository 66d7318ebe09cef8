-- ===== src/Cache/Affects.antt =====
-- What the writes of slurmweb/slurmrestd/__init__.py are about, said without the cache, and that the
-- keys that a write invalidates are those of all the reads that show it.
use slurm_web_plus.Prelude.{
  String, Bool, true, false, ◌&&◌, ◌==◌, elem, ◌≡◌, refl, arith, eq_iff, eq_refl, subst,
}
use slurm_web_plus.Cache.Keys.{
  Read, jobs, jobs_unfiltered, nodes, nodes_unfiltered, partitions, accounts, associations,
  reservations, qos, job, node, key_of, Write, job_submit, accounts_update, account_delete,
  users_update, user_delete, associations_update, associations_delete, qos_update, qos_delete,
  reservation_create, reservation_update, reservation_delete, job_update, job_cancel, node_update,
  node_delete, keys_of,
}
use slurm_web_plus.Cache.Coherence.{mains}

-- What an answer of slurmrestd is made of. An account is shown with the names of its associations, an
-- association with its account, its user and its QOS.
pub data Subject : Type 0 where
  the_jobs the_nodes the_partitions the_accounts the_users the_associations the_reservations
        the_qos :
      Subject

-- What a read shows.
abbrev pub shows : Read → Subject → Bool
shows jobs the_jobs = true
shows jobs_unfiltered the_jobs = true
shows (job job_id) the_jobs = true
shows nodes the_nodes = true
shows nodes_unfiltered the_nodes = true
shows (node node_name) the_nodes = true
shows partitions the_partitions = true
shows accounts the_accounts = true
shows accounts the_associations = true
shows associations the_associations = true
shows associations the_accounts = true
shows associations the_users = true
shows associations the_qos = true
shows reservations the_reservations = true
shows qos the_qos = true
shows r subject = false

-- What a write changes.
abbrev pub subject_of : Write → Subject
subject_of job_submit = the_jobs
subject_of (job_update job_id) = the_jobs
subject_of (job_cancel job_id) = the_jobs
subject_of (node_update node_name) = the_nodes
subject_of (node_delete node_name) = the_nodes
subject_of accounts_update = the_accounts
subject_of account_delete = the_accounts
subject_of users_update = the_users
subject_of user_delete = the_users
subject_of associations_update = the_associations
subject_of associations_delete = the_associations
subject_of qos_update = the_qos
subject_of qos_delete = the_qos
subject_of reservation_create = the_reservations
subject_of reservation_update = the_reservations
subject_of reservation_delete = the_reservations

-- A read of one job or node shows no other, and no job that is only submitted now.
abbrev pub same_item : Write → Read → Bool
same_item job_submit (job job_id) = false
same_item (job_update name) (job job_id) = name == job_id
same_item (job_cancel name) (job job_id) = name == job_id
same_item (node_update name) (node node_name) = name == node_name
same_item (node_delete name) (node node_name) = name == node_name
same_item w r = true

-- The write may change the answer of the read.
abbrev pub affects : Write → Read → Bool
affects w r = shows r (subject_of w) && same_item w r

self_job :
    (name : String) → elem (key_of (job name)).main (mains (keys_of (job_update name))) ≡ true
unfolding elem
self_job name = ground (arith, eq_refl (key_of (job name)).main)

self_node :
    (name : String) → elem (key_of (node name)).main (mains (keys_of (node_update name))) ≡ true
unfolding elem
self_node name = ground (arith, eq_refl (key_of (node name)).main)

-- The key of a read that a write may change is among those that the write invalidates.
pub affects-keys_of :
    (w : Write) (r : Read) → affects w r ≡ true → elem (key_of r).main (mains (keys_of w)) ≡ true
unfolding elem
affects-keys_of job_submit jobs h = refl
affects-keys_of job_submit jobs_unfiltered h = refl
affects-keys_of job_submit _ h = cc (h)
affects-keys_of accounts_update accounts h = refl
affects-keys_of accounts_update associations h = refl
affects-keys_of accounts_update _ h = cc (h)
affects-keys_of account_delete accounts h = refl
affects-keys_of account_delete associations h = refl
affects-keys_of account_delete _ h = cc (h)
affects-keys_of users_update associations h = refl
affects-keys_of users_update _ h = cc (h)
affects-keys_of user_delete associations h = refl
affects-keys_of user_delete _ h = cc (h)
affects-keys_of associations_update accounts h = refl
affects-keys_of associations_update associations h = refl
affects-keys_of associations_update _ h = cc (h)
affects-keys_of associations_delete accounts h = refl
affects-keys_of associations_delete associations h = refl
affects-keys_of associations_delete _ h = cc (h)
affects-keys_of qos_update associations h = refl
affects-keys_of qos_update qos h = refl
affects-keys_of qos_update _ h = cc (h)
affects-keys_of qos_delete associations h = refl
affects-keys_of qos_delete qos h = refl
affects-keys_of qos_delete _ h = cc (h)
affects-keys_of reservation_create reservations h = refl
affects-keys_of reservation_create _ h = cc (h)
affects-keys_of reservation_update reservations h = refl
affects-keys_of reservation_update _ h = cc (h)
affects-keys_of reservation_delete reservations h = refl
affects-keys_of reservation_delete _ h = cc (h)
affects-keys_of (job_update name) jobs h = refl
affects-keys_of (job_update name) jobs_unfiltered h = refl
affects-keys_of (job_update name) (job other) h =
    subst (λ j. elem (key_of (job j)).main (mains (keys_of (job_update name))) ≡ true)
      ((eq_iff name other).0 h) (self_job name)
affects-keys_of (job_update name) _ h = cc (h)
affects-keys_of (job_cancel name) jobs h = refl
affects-keys_of (job_cancel name) jobs_unfiltered h = refl
affects-keys_of (job_cancel name) (job other) h =
    subst (λ j. elem (key_of (job j)).main (mains (keys_of (job_cancel name))) ≡ true)
      ((eq_iff name other).0 h) (self_job name)
affects-keys_of (job_cancel name) _ h = cc (h)
affects-keys_of (node_update name) nodes h = refl
affects-keys_of (node_update name) nodes_unfiltered h = refl
affects-keys_of (node_update name) (node other) h =
    subst (λ j. elem (key_of (node j)).main (mains (keys_of (node_update name))) ≡ true)
      ((eq_iff name other).0 h) (self_node name)
affects-keys_of (node_update name) _ h = cc (h)
affects-keys_of (node_delete name) nodes h = refl
affects-keys_of (node_delete name) nodes_unfiltered h = refl
affects-keys_of (node_delete name) (node other) h =
    subst (λ j. elem (key_of (node j)).main (mains (keys_of (node_delete name))) ≡ true)
      ((eq_iff name other).0 h) (self_node name)
affects-keys_of (node_delete name) _ h = cc (h)
