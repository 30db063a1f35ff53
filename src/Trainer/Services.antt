-- ===== src/Trainer/Services.antt =====
-- Services, nodes and the last pod of a job: the helpers at the end of cmd/trainer/trainer_runai.go.
pub mod Addresses
pub mod Pods
mod Tests
use Prim.Native.String
use runai_cli.Prelude.{
  ℕ, String, Bool, true, false, not, ◌&&◌, ◌||◌, Option, none, some, List, [], ◌∷◌, ◌++◌, Map,
  lookup, get, ltb, ◌==◌, str_eq, if◌then◌else◌, select, all, find_first, decimal,
}
use runai_cli.Kube.{Meta, Pod}

pub record Address : Type 0 where
  pub type : String
  pub address : String

pub record Node : Type 0 where
  pub annotations : Map String
  pub addresses : List Address

-- The four variables of `getNodeIp`.
pub record Known : Type 0 where
  pub external_dns : String
  pub external_ip : String
  pub internal_dns : String
  pub internal_ip : String

abbrev pub nothing_known : Known
nothing_known = record { external_dns = ""; external_ip = ""; internal_dns = ""; internal_ip = "" }

-- The loop over the addresses of a node: a later address of a type replaces an earlier one.
unfoldable pub read_address : Known → Address → Known
read_address known a =
    if str_eq a.type "ExternalDNS"
    then record known { external_dns = a.address }
    else if str_eq a.type "ExternalIP"
    then record known { external_ip = a.address }
    else if str_eq a.type "InternalDNS"
    then record known { internal_dns = a.address }
    else if str_eq a.type "InternalIP"
    then record known { internal_ip = a.address }
    else known

unfoldable pub read_addresses : Known → List Address → Known
unfolding read_address
read_addresses known [] = known
read_addresses known (a ∷ addresses) = read_addresses (read_address known a) addresses

abbrev pub annotation_or : Option String → String → String
annotation_or none other = other
annotation_or (some value) other = value

-- `getExternalIPFromAnnotationHack`.
unfoldable pub get_external_ip_from_annotation_hack : List Node → String
unfolding lookup
get_external_ip_from_annotation_hack [] = ""
get_external_ip_from_annotation_hack (node ∷ nodes) =
    annotation_or (lookup node.annotations "runai/external-node-ip")
      (get_external_ip_from_annotation_hack nodes)

abbrev pub internal_or : String → Known → String
internal_or annotated known =
    if not (str_eq annotated "")
    then annotated
    else if not (str_eq known.internal_dns "")
    then known.internal_dns
    else known.internal_ip

-- The loop over the nodes, and what follows it.
unfoldable pub node_ip_loop : String → Known → List Node → String
unfolding read_addresses
node_ip_loop annotated known [] = internal_or annotated known
node_ip_loop annotated known (node ∷ nodes) =
    let read = read_addresses known node.addresses in
    let rest = node_ip_loop annotated read nodes in
    if not (str_eq read.external_dns "")
    then read.external_dns
    else if not (str_eq read.external_ip "")
    then read.external_ip
    else rest

unfoldable pub get_node_ip : List Node → String
unfolding node_ip_loop get_external_ip_from_annotation_hack
get_node_ip nodes = node_ip_loop (get_external_ip_from_annotation_hack nodes) nothing_known nodes

unfoldable pub last_created_loop : Pod → List Pod → Pod
last_created_loop last [] = last
last_created_loop last (pod ∷ pods) =
    last_created_loop (if ltb last.meta.created pod.meta.created then pod else last) pods

unfoldable pub get_last_created_pod : List Pod → Option Pod
unfolding last_created_loop
get_last_created_pod [] = none
get_last_created_pod (pod ∷ pods) = some (last_created_loop pod pods)

pub record ServicePort : Type 0 where
  pub port : ℕ
  pub node_port : ℕ

pub record Ingress : Type 0 where
  pub hostname : String
  pub ip : String

pub record Service : Type 0 where
  pub name : String
  pub type : String
  pub selector : Option (Map String)
  pub ports : List ServicePort
  pub ingress : List Ingress

-- Whether every pair of a selector stands in the labels: a missing label reads as the empty text.
unfoldable pub is_selected : Pod → Option (Map String) → Bool
unfolding all get
is_selected pod none = false
is_selected pod (some selector) = all (λ pair. str_eq (get pod.meta.labels pair.0) pair.1) selector

unfoldable pub get_service_of_pod : List Service → Pod → Option Service
unfolding find_first is_selected
get_service_of_pod services pod = find_first (λ s. is_selected pod s.selector) services

unfoldable pub ingress_host_or_ip : List Ingress → String
ingress_host_or_ip [] = ""
ingress_host_or_ip (i ∷ more) = if not (str_eq i.hostname "") then i.hostname else i.ip

abbrev pub with_port : String → ℕ → String
with_port host port = String.◌++◌ host (String.◌++◌ ":" (decimal port))

unfoldable pub balanced_urls : String → List ServicePort → List String
unfolding decimal
balanced_urls host [] = []
balanced_urls host (p ∷ ports) =
    (if p.port == 80
      then String.◌++◌ "http://" host
      else if p.port == 443
      then String.◌++◌ "https://" host
      else with_port host p.port)
    ∷ balanced_urls host ports

unfoldable pub node_urls : String → List ServicePort → List String
unfolding decimal
node_urls node_ip [] = []
node_urls node_ip (p ∷ ports) = with_port node_ip p.node_port ∷ node_urls node_ip ports

abbrev pub pending_or_node : String → Service → List String
pending_or_node node_ip service =
    if str_eq service.type "LoadBalancer"
    then "<pending>" ∷ []
    else if str_eq service.type "NodePort"
    then node_urls node_ip service.ports
    else []

abbrev pub endpoints_of : String → Service → List Ingress → List String
endpoints_of node_ip service [] = pending_or_node node_ip service
endpoints_of node_ip service (i ∷ more) =
    balanced_urls (ingress_host_or_ip (i ∷ more)) service.ports

unfoldable pub get_service_endpoints : String → Service → List String
unfolding balanced_urls node_urls ingress_host_or_ip
get_service_endpoints node_ip service = endpoints_of node_ip service service.ingress

pub record IngressPath : Type 0 where
  pub path : String
  pub service_name : String
  pub service_port : ℕ

-- The rules of an ingress: the paths of each, where it is an HTTP rule.
abbrev pub Rules : Type 0
Rules = List (Option (List IngressPath))

abbrev pub first_of : Option String → Option String → Option String
first_of none later = later
first_of (some path) later = some path

unfoldable pub path_in_paths : List IngressPath → Service → ℕ → Option String
path_in_paths [] service port = none
path_in_paths (p ∷ paths) service port =
    if str_eq p.service_name service.name && (p.service_port == port)
    then some p.path
    else path_in_paths paths service port

unfoldable pub path_in_rules : Rules → Service → ℕ → Option String
unfolding path_in_paths
path_in_rules [] service port = none
path_in_rules (none ∷ rules) service port = path_in_rules rules service port
path_in_rules (some paths ∷ rules) service port =
    first_of (path_in_paths paths service port) (path_in_rules rules service port)

unfoldable pub get_ingress_path_of_service : List Rules → Service → ℕ → Option String
unfolding path_in_rules
get_ingress_path_of_service [] service port = none
get_ingress_path_of_service (rules ∷ ingresses) service port =
    first_of (path_in_rules rules service port) (get_ingress_path_of_service ingresses service port)

unfoldable pub with_path : String → List String → List String
with_path path [] = []
with_path path (endpoint ∷ endpoints) = String.◌++◌ endpoint path ∷ with_path path endpoints

abbrev pub is_pending : List String → Bool
is_pending [] = false
is_pending (endpoint ∷ endpoints) = str_eq endpoint "<pending>"

-- The loop over the ports of a service behind an ingress.
unfoldable pub ingress_urls :
    List String → List Rules → Service → List String → List ServicePort → List String
unfolding get_ingress_path_of_service with_path
ingress_urls endpoints ingresses service urls [] = urls
ingress_urls endpoints ingresses service urls (p ∷ ports) =
    elim (get_ingress_path_of_service ingresses service p.port) [
      | none ↦ ingress_urls endpoints ingresses service urls ports
      | some path ↦ elim (is_pending endpoints) [
        | true ↦ "<pending>" ∷ []
        | false ↦ ingress_urls endpoints ingresses service (urls ++ with_path path endpoints) ports
      ]
    ]

abbrev pub ingress_endpoints : String → Option Service → List String
ingress_endpoints node_ip none = []
ingress_endpoints node_ip (some service) = get_service_endpoints node_ip service

unfoldable pub get_service_urls : Option Service → List Rules → String → Service → List String
unfolding get_service_endpoints ingress_urls
get_service_urls ingress_service ingresses node_ip service =
    if str_eq service.type "NodePort" || str_eq service.type "LoadBalancer"
    then get_service_endpoints node_ip service
    else ingress_urls (ingress_endpoints node_ip ingress_service) ingresses service [] service.ports
