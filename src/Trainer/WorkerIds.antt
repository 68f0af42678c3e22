-- ===== src/Trainer/WorkerIds.antt =====
-- The worker ids of the tasks of one cluster.
use n_mpc.Prelude.{ℕ, ◌+◌, ◌<◌, String, ◌≡◌, refl, arith}
use n_mpc.Trainer.TfConfig.{Cluster, count_tasks, count_workers, worker_id_of}

-- The tasks that train: those of a master, a chief or a worker.
pub data IsTrainer (spec : Cluster) : (job_name : String) (task_index : ℕ) → Type 0 where
  master : (i : ℕ) → i < count_tasks "master" spec → IsTrainer spec "master" i
  chief : (i : ℕ) → i < count_tasks "chief" spec → IsTrainer spec "chief" i
  worker : (i : ℕ) → i < count_tasks "worker" spec → IsTrainer spec "worker" i

-- The ids of the jobs, one after the other.
worker_id_of-master : (spec : Cluster) (i : ℕ) → worker_id_of spec "master" i ≡ i
unfolding worker_id_of
worker_id_of-master spec i = refl

worker_id_of-chief :
    (spec : Cluster) (i : ℕ) → worker_id_of spec "chief" i ≡ count_tasks "master" spec + i
unfolding worker_id_of
worker_id_of-chief spec i = refl

worker_id_of-worker :
    (spec : Cluster) (i : ℕ)
    → worker_id_of spec "worker" i ≡ count_tasks "chief" spec + count_tasks "master" spec + i
unfolding worker_id_of
worker_id_of-worker spec i = refl

pub worker_id_of-bound :
    (spec : Cluster) {job : String} {i : ℕ}
    → IsTrainer spec job i
    → worker_id_of spec job i < count_workers spec
worker_id_of-bound spec (master i h) = omega (arith, worker_id_of-master spec i)
worker_id_of-bound spec (chief i h) = omega (arith, worker_id_of-chief spec i)
worker_id_of-bound spec (worker i h) = omega (arith, worker_id_of-worker spec i)

pub worker_id_of_inj :
    (spec : Cluster) {job₁ job₂ : String} {i₁ i₂ : ℕ}
    → IsTrainer spec job₁ i₁
    → IsTrainer spec job₂ i₂
    → worker_id_of spec job₁ i₁ ≡ worker_id_of spec job₂ i₂
    → (job₁ ≡ job₂) × (i₁ ≡ i₂)
worker_id_of_inj spec (master i p) (master j q) h =
    (refl, omega (arith, worker_id_of-master spec i, worker_id_of-master spec j))
worker_id_of_inj spec (master i p) (chief j q) h =
    absurd (omega (arith, worker_id_of-master spec i, worker_id_of-chief spec j))
worker_id_of_inj spec (master i p) (worker j q) h =
    absurd (omega (arith, worker_id_of-master spec i, worker_id_of-worker spec j))
worker_id_of_inj spec (chief i p) (master j q) h =
    absurd (omega (arith, worker_id_of-chief spec i, worker_id_of-master spec j))
worker_id_of_inj spec (chief i p) (chief j q) h =
    (refl, omega (arith, worker_id_of-chief spec i, worker_id_of-chief spec j))
worker_id_of_inj spec (chief i p) (worker j q) h =
    absurd (omega (arith, worker_id_of-chief spec i, worker_id_of-worker spec j))
worker_id_of_inj spec (worker i p) (master j q) h =
    absurd (omega (arith, worker_id_of-worker spec i, worker_id_of-master spec j))
worker_id_of_inj spec (worker i p) (chief j q) h =
    absurd (omega (arith, worker_id_of-worker spec i, worker_id_of-chief spec j))
worker_id_of_inj spec (worker i p) (worker j q) h =
    (refl, omega (arith, worker_id_of-worker spec i, worker_id_of-worker spec j))
