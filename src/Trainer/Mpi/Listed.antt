-- ===== src/Trainer/Mpi/Listed.antt =====
-- The list of the MPI jobs of a namespace.
use runai_cli.Prelude.{some, List, [], ◌∷◌, map, All, ◌≡◌, refl}
use mathlib.Core.Path.{subst}
use mathlib.Core.Option.{some-injective}
use runai_cli.Kube.{Pod}
use runai_cli.Trainer.Mpi.{
  MpiObject, MpiJob, MpiJobTrainer, BatchJob, zero_pod, get_training_job_info, listed_job,
  list_training_jobs,
}
use runai_cli.Trainer.Mpi.Chief.{IsChosen, get_pods_of_mpi_job-IsChosen}

-- The pods and the chief pod of a listed job are those of its name in the namespace of its object.
abbrev pub HasPods : List Pod → MpiJob → Type 0
HasPods pods row = IsChosen row.name row.mpijob.meta.namespace zero_pod pods row.pods row.chief_pod

listed_job-HasPods :
    (trainer : MpiJobTrainer) (pods : List Pod) (jobs : List BatchJob) (mpi_job : MpiObject)
    → HasPods pods (listed_job trainer pods jobs mpi_job)
unfolding listed_job get_training_job_info
listed_job-HasPods trainer pods jobs mpi_job =
    get_pods_of_mpi_job-IsChosen _ mpi_job.meta.namespace pods

listed_job-mpijob :
    (trainer : MpiJobTrainer) (pods : List Pod) (jobs : List BatchJob) (mpi_job : MpiObject)
    → (listed_job trainer pods jobs mpi_job).mpijob ≡ mpi_job
unfolding listed_job get_training_job_info
listed_job-mpijob trainer pods jobs mpi_job = refl

rows-HasPods :
    (trainer : MpiJobTrainer) (pods : List Pod) (jobs : List BatchJob) (mpi_jobs : List MpiObject)
    → All (HasPods pods) (map (listed_job trainer pods jobs) mpi_jobs)
      × (map (λ row. row.mpijob) (map (listed_job trainer pods jobs) mpi_jobs) ≡ mpi_jobs)
rows-HasPods trainer pods jobs [] = (tt, refl)
rows-HasPods trainer pods jobs (m ∷ rest) =
    let (h, e) = rows-HasPods trainer pods jobs rest in
    (
      (listed_job-HasPods trainer pods jobs m, h),
      λ i. listed_job-mpijob trainer pods jobs m i ∷ e i,
    )

-- If the MPI jobs, the pods and the batch jobs of a namespace are listed, there is one job for each MPI
-- job, in their order. Its pods are pods with the label of its name in its namespace, and of those only
-- launchers that are pending can be missing. Its chief pod is the zero pod or one of these pods that is
-- a launcher, and no launcher of the job was created after it, but for pending ones.
pub list_training_jobs-HasPods :
    (trainer : MpiJobTrainer) (mpi_jobs : List MpiObject) (pods : List Pod) (jobs : List BatchJob)
    {rows : List MpiJob}
    → list_training_jobs trainer (some mpi_jobs) (some pods) (some jobs) ≡ some rows
    → All (HasPods pods) rows × (map (λ row. row.mpijob) rows ≡ mpi_jobs)
unfolding list_training_jobs
list_training_jobs-HasPods trainer mpi_jobs pods jobs e =
    subst (λ rows. All (HasPods pods) rows × (map (λ row. row.mpijob) rows ≡ mpi_jobs))
      (some-injective _ _ e) (rows-HasPods trainer pods jobs mpi_jobs)
