-- ===== src/Ports.antt =====
-- pkg/util/port_allocate.go: picking a free port of the cluster. The variable of the package that
-- keeps the used ports is passed along; the lists that the cluster answers with are arguments, where
-- `none` is an error.
pub mod Free
pub mod Partial
mod Tests
use runai_cli.Prelude.{
  ℕ, zero, suc, ◌+◌, ◌-◌, String, Bool, true, false, not, ◌&&◌, ◌||◌, Option, none, some, List, [],
  ◌∷◌, ◌++◌, map, ltb, ◌==◌, str_eq, any, if◌then◌else◌, select,
}
use runai_cli.Kube.{ContainerPort, Container, Pod, pod_succeeded, pod_failed}

abbrev pub auto_select_port_min : ℕ
auto_select_port_min = 20000

abbrev pub auto_select_port_max : ℕ
auto_select_port_max = 30000

-- The parts of a service that are read.
pub record Service : Type 0 where
  pub type : String
  pub node_ports : List ℕ

-- What the cluster answers.
pub record Answers : Type 0 where
  pub pods : Option (List Pod)
  pub services : Option (List Service)

pub data PortError : Type 0 where
  not_listed none_available : PortError

pub data Selected : Type 0 where
  port : ℕ → Selected
  failed : PortError → Selected

unfoldable pub exclude_inactive_pod : Pod → Bool
exclude_inactive_pod pod =
    if str_eq pod.spec.node_name ""
    then true
    else str_eq pod.status.phase pod_succeeded || str_eq pod.status.phase pod_failed

unfoldable pub container_ports : Bool → List ContainerPort → List ℕ
container_ports host_network [] = []
container_ports host_network (p ∷ ports) =
    (if host_network then p.container_port else p.host_port) ∷ container_ports host_network ports

unfoldable pub containers_ports : Bool → List Container → List ℕ
unfolding container_ports
containers_ports host_network [] = []
containers_ports host_network (c ∷ containers) =
    container_ports host_network c.ports ++ containers_ports host_network containers

unfoldable pub pods_ports : List Pod → List ℕ
unfolding exclude_inactive_pod containers_ports
pods_ports [] = []
pods_ports (pod ∷ pods) =
    (if exclude_inactive_pod pod
      then []
      else containers_ports pod.spec.host_network pod.spec.containers)
    ++ pods_ports pods

unfoldable pub services_ports : List Service → List ℕ
services_ports [] = []
services_ports (service ∷ services) =
    (if str_eq service.type "NodePort" || str_eq service.type "LoadBalancer"
      then service.node_ports
      else [])
    ++ services_ports services

-- The used ports, which are appended as they are found, and whether both lists came.
unfoldable pub get_cluster_used_node_ports : Answers → List ℕ → List ℕ × Bool
unfolding pods_ports services_ports
get_cluster_used_node_ports answers used = elim answers.pods [
  | none ↦ (used, false)
  | some pods ↦ elim answers.services [
    | none ↦ (used ++ pods_ports pods, false)
    | some services ↦ ((used ++ pods_ports pods) ++ services_ports services, true)
  ]
]

unfoldable pub init_k8s_cluster_used_port : Answers → List ℕ → List ℕ × Bool
unfolding get_cluster_used_node_ports
init_k8s_cluster_used_port answers [] = get_cluster_used_node_ports answers []
init_k8s_cluster_used_port answers (p ∷ used) = (p ∷ used, true)

unfoldable pub is_port_in_used : List ℕ → ℕ → Bool
unfolding any
is_port_in_used used p = any (λ used_port. p == used_port) used

-- The loop over the ports from `p`: the fuel is the number of rounds that are left.
unfoldable pub select_loop : List ℕ → ℕ → ℕ → Option ℕ
unfolding is_port_in_used
select_loop used zero p = none
select_loop used (suc fuel) p = elim (ltb p auto_select_port_max) [
  | false ↦ none
  | true ↦ elim (is_port_in_used used p) [ false ↦ some p | true ↦ select_loop used fuel (p + 1) ]
]

abbrev pub take_port : List ℕ → Option ℕ → List ℕ × Selected
take_port used none = (used, failed none_available)
take_port used (some p) = (used ++ p ∷ [], port p)

abbrev pub when_listed : List ℕ × Bool → List ℕ × Selected
when_listed (used, false) = (used, failed not_listed)
when_listed (used, true) =
    take_port used
      (select_loop used (auto_select_port_max - auto_select_port_min) auto_select_port_min)

unfoldable pub select_available_port : Answers → List ℕ → List ℕ × Selected
unfolding init_k8s_cluster_used_port select_loop
select_available_port answers used = when_listed (init_k8s_cluster_used_port answers used)

unfoldable pub select_available_port_with_default : Answers → List ℕ → ℕ → List ℕ × Selected
unfolding select_available_port
select_available_port_with_default answers used p =
    if not (p == 0) then (used, port p) else select_available_port answers used
