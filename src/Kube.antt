-- ===== src/Kube.antt =====
-- The fields of Kubernetes objects that the commands read, and the constants that they compare.
-- Amounts and times are native numbers; a map of labels or annotations that is nil reads as empty.
use runai_cli.Prelude.{ℕ, String, Bool, Option, List, Map}

pub record OwnerReference : Type 0 where
  pub kind : String
  pub name : String
  pub uid : String
  pub controller : Option Bool

pub record Meta : Type 0 where
  pub name : String
  pub namespace : String
  pub uid : String
  pub labels : Map String
  pub annotations : Map String
  pub created : ℕ
  pub deleted : Option ℕ
  pub owners : List OwnerReference

pub record ContainerPort : Type 0 where
  pub host_port : ℕ
  pub container_port : ℕ

pub record Container : Type 0 where
  pub name : String
  pub image : String
  pub limits : Map ℕ
  pub requests : Map ℕ
  pub ports : List ContainerPort

pub record Terminated : Type 0 where
  pub exit_code : ℕ
  pub signal : ℕ
  pub reason : String

-- The state of a container; `running` says whether that part is there.
pub record ContainerStatus : Type 0 where
  pub terminated : Option Terminated
  pub waiting : Option String
  pub running : Bool
  pub ready : Bool

pub record Condition : Type 0 where
  pub type : String
  pub status : String
  pub changed : ℕ

pub record PodSpec : Type 0 where
  pub scheduler_name : String
  pub node_name : String
  pub host_network : Bool
  pub containers : List Container
  pub init_containers : List Container

pub record PodStatus : Type 0 where
  pub phase : String
  pub reason : String
  pub conditions : List Condition
  pub init_statuses : List ContainerStatus
  pub statuses : List ContainerStatus

pub record Pod : Type 0 where
  pub meta : Meta
  pub spec : PodSpec
  pub status : PodStatus

pub record PodTemplate : Type 0 where
  pub meta : Meta
  pub spec : PodSpec

abbrev pub pod_pending : String
pod_pending = "Pending"

abbrev pub pod_running : String
pod_running = "Running"

abbrev pub pod_succeeded : String
pod_succeeded = "Succeeded"

abbrev pub pod_failed : String
pod_failed = "Failed"

abbrev pub condition_true : String
condition_true = "True"

abbrev pub pod_ready : String
pod_ready = "Ready"

abbrev pub pod_initialized : String
pod_initialized = "Initialized"
