-- ===== src/Trainer/Amounts/Sums.antt =====
-- The counts and the sums over the pods of a job.
use runai_cli.Prelude.{
  ℕ, ℤ, suc, some, select, ◌+◌, ◌%◌, ◌^◌, ◌≤◌, ◌==◌, pos, String, none, List, [], ◌∷◌, get, length,
  str_eq, if◌then◌else◌, ◌≡◌, ◌≢◌, refl, sym, ap, ◌∙◌, Bool-cases, ==_iff, inl, inr, arith,
}
use mathlib.Core.List.{Perm, foldr}
use mathlib.Core.List.Perm
use native.Mathlib.Nat.{ℕ_set}
use runai_cli.Kube.{Pod, pod_running, pod_pending}
use runai_cli.Trainer.Amounts.{
  Workload, or_zero, parse_uint, get_running_pods, get_pending_pods, count_phase, or_count,
  running_pods, pending_pods, memory_loop, get_requested_gpus_memory_per_pod_group,
  requested_gpu_memory,
}

abbrev pub memory_of_pod : Pod → ℕ
memory_of_pod pod = or_zero (parse_uint (get pod.meta.annotations "gpu-memory"))

-- The memory of all pods, as a number that does not overflow.
abbrev pub memory_of_pods : List Pod → ℕ
memory_of_pods pods = foldr (λ pod sum. memory_of_pod pod + sum) 0 pods

memory_loop_lem :
    (memory : ℕ) (pods : List Pod)
    → memory_loop memory pods % 2 ^ 64 ≡ (memory + memory_of_pods pods) % 2 ^ 64
unfolding memory_loop
memory_loop_lem memory [] = omega arith
memory_loop_lem memory (pod ∷ pods) =
    let h = memory_loop_lem ((memory + memory_of_pod pod) % 2 ^ 64) pods in omega arith

memory_loop-lt :
    (memory : ℕ) (pods : List Pod) → suc memory ≤ 2 ^ 64 → suc (memory_loop memory pods) ≤ 2 ^ 64
unfolding memory_loop
memory_loop-lt memory [] h = h
memory_loop-lt memory (pod ∷ pods) h =
    memory_loop-lt ((memory + memory_of_pod pod) % 2 ^ 64) pods (omega arith)

memory_loop-zero : (pods : List Pod) → memory_loop 0 pods ≡ memory_of_pods pods % 2 ^ 64
memory_loop-zero pods =
    let h = memory_loop_lem 0 pods in let small = memory_loop-lt 0 pods (omega arith) in omega arith

-- Counting by a fold.
abbrev one_of : String → Pod → ℕ → ℕ
one_of phase pod n = (if str_eq pod.status.phase phase then 1 else 0) + n

count_phase-foldr :
    (phase : String) (pods : List Pod) → count_phase phase pods ≡ foldr (one_of phase) 0 pods
unfolding count_phase
count_phase-foldr phase [] = refl
count_phase-foldr phase (pod ∷ pods) = let h = count_phase-foldr phase pods in ground arith

count_phase-Perm :
    (phase : String) {pods others : List Pod}
    → Perm pods others
    → count_phase phase pods ≡ count_phase phase others
count_phase-Perm phase {pods} {others} p =
    count_phase-foldr phase pods
    ∙ Perm.foldr-eq ℕ_set (one_of phase) (λ a b x. omega arith) p 0
    ∙ sym (count_phase-foldr phase others)

memory_of_pods-Perm :
    {pods others : List Pod} → Perm pods others → memory_of_pods pods ≡ memory_of_pods others
memory_of_pods-Perm p =
    Perm.foldr-eq ℕ_set (λ pod sum. memory_of_pod pod + sum) (λ a b x. omega arith) p 0

count_phase-select :
    (phase : String) (pods : List Pod)
    → count_phase phase pods ≡ length (select (λ pod. str_eq pod.status.phase phase) pods)
unfolding count_phase select
count_phase-select phase [] = refl
count_phase-select phase (pod ∷ pods) =
    let h = count_phase-select phase pods in
    elim (Bool-cases (str_eq pod.status.phase phase)) [ inl e ↦ rw e (ap suc h) | inr e ↦ rw e h ]

-- How many pods are in a phase.
abbrev pub number_in : String → List Pod → ℕ
number_in phase pods = length (select (λ pod. str_eq pod.status.phase phase) pods)

-- What a list of jobs tells of the pods.
pub record IsCounted (rj : Workload) (others : List Pod) : Type 0 where
  pub running : running_pods (record rj { pods = others }) ≡ running_pods rj
  pub pending : pending_pods (record rj { pods = others }) ≡ pending_pods rj
  pub memory : requested_gpu_memory (record rj { pods = others }) ≡ requested_gpu_memory rj
  pub annotated :
      get_requested_gpus_memory_per_pod_group rj.job_annotations ≢ 0
      → requested_gpu_memory rj ≡ get_requested_gpus_memory_per_pod_group rj.job_annotations
  pub added :
      get_requested_gpus_memory_per_pod_group rj.job_annotations ≡ 0
      → requested_gpu_memory rj ≡ memory_of_pods rj.pods % 2 ^ 64
  pub annotated_running :
      (n : ℤ) → get_running_pods rj.job_annotations ≡ some n → running_pods rj ≡ n
  pub annotated_pending :
      (n : ℤ) → get_pending_pods rj.job_annotations ≡ some n → pending_pods rj ≡ n
  pub counted_running :
      get_running_pods rj.job_annotations ≡ none
      → running_pods rj ≡ pos (number_in "Running" rj.pods)
  pub counted_pending :
      get_pending_pods rj.job_annotations ≡ none
      → pending_pods rj ≡ pos (number_in "Pending" rj.pods)

memory_loop-Perm :
    {pods others : List Pod} → Perm pods others → memory_loop 0 others ≡ memory_loop 0 pods
memory_loop-Perm {pods} {others} p =
    memory_loop-zero others
    ∙ ap (λ n. n % 2 ^ 64) (sym (memory_of_pods-Perm p))
    ∙ sym (memory_loop-zero pods)

abbrev annotated_memory : Workload → ℕ
annotated_memory rj = get_requested_gpus_memory_per_pod_group rj.job_annotations

requested-annotated :
    (rj : Workload) → annotated_memory rj ≢ 0 → requested_gpu_memory rj ≡ annotated_memory rj
unfolding requested_gpu_memory
requested-annotated rj h = ground (arith, h)

requested-added :
    (rj : Workload) → annotated_memory rj ≡ 0 → requested_gpu_memory rj ≡ memory_loop 0 rj.pods
unfolding requested_gpu_memory
requested-added rj h = rw h refl

requested-Perm :
    (rj : Workload) (others : List Pod)
    → Perm rj.pods others
    → requested_gpu_memory (record rj { pods = others }) ≡ requested_gpu_memory rj
requested-Perm rj others p = elim (Bool-cases (annotated_memory rj == 0)) [
  | inl e ↦
      let z = (==_iff (annotated_memory rj) 0).0 e in
      requested-added (record rj { pods = others }) z
      ∙ memory_loop-Perm p
      ∙ sym (requested-added rj z)
  | inr e ↦
      let z : annotated_memory rj ≢ 0 = λ q. ground (arith, ==_iff (annotated_memory rj) 0) in
      requested-annotated (record rj { pods = others }) z ∙ sym (requested-annotated rj z)
]

-- The numbers of running and of pending pods and the GPU memory of a job do not depend on the order in
-- which its pods are listed. A number is the annotated one if there is one that can be read, and
-- otherwise that of the pods in the phase "Running" or "Pending". The memory is the annotated one if that is not zero, and otherwise the sum
-- of what the pods' annotations say, on 64 bits.
pub amounts-IsCounted :
    (rj : Workload) (others : List Pod) → Perm rj.pods others → IsCounted rj others
unfolding running_pods pending_pods
amounts-IsCounted rj others p = record {
  running =
      ap (or_count (get_running_pods rj.job_annotations)) (sym (count_phase-Perm pod_running p));
  pending =
      ap (or_count (get_pending_pods rj.job_annotations)) (sym (count_phase-Perm pod_pending p));
  memory = requested-Perm rj others p;
  annotated = requested-annotated rj;
  added = λ h. requested-added rj h ∙ memory_loop-zero rj.pods;
  annotated_running = λ n e. rw e refl;
  annotated_pending = λ n e. rw e refl;
  counted_running = λ e. rw e (ap pos (count_phase-select "Running" rj.pods));
  counted_pending = λ e. rw e (ap pos (count_phase-select "Pending" rj.pods));
}
