-- ===== src/Trainer/Services/Tests.antt =====
-- Services, nodes and pods of a concrete cluster.
use runai_cli.Prelude.{
  ℕ, String, false, Option, none, some, List, [], ◌∷◌, Map, lookup, get, all, find_first, decimal,
  ◌≡◌, refl,
}
use runai_cli.Kube.{Pod}
use runai_cli.Trainer.Services.{
  Address, Node, nothing_known, read_address, read_addresses, node_ip_loop, get_node_ip,
  get_external_ip_from_annotation_hack, Service, get_last_created_pod, last_created_loop,
  is_selected, get_service_of_pod, get_service_urls, get_service_endpoints, ingress_urls,
  balanced_urls, node_urls, ingress_host_or_ip, get_ingress_path_of_service, path_in_rules,
  path_in_paths, with_path,
}
use runai_cli.Trainer.Services.Addresses.{best, has_external, get_node_ip-best}
use runai_cli.Trainer.Services.Pods.{
  IsLast, IsServiceOf, get_last_created_pod-IsLast, get_service_of_pod-IsServiceOf,
}

-- What a test unfolds to find an address.
finding : Unit {0}
unfolding get_node_ip node_ip_loop read_addresses read_address get_external_ip_from_annotation_hack
    lookup get all find_first get_last_created_pod last_created_loop is_selected get_service_of_pod
    get_service_urls get_service_endpoints ingress_urls balanced_urls node_urls ingress_host_or_ip
    get_ingress_path_of_service path_in_rules path_in_paths with_path decimal
finding = tt

abbrev node_of : List Address → Node
node_of addresses = record { annotations = []; addresses = addresses }

abbrev some_nodes : List Node
some_nodes =
    node_of (record { type = "InternalIP"; address = "10.0.0.1" } ∷ [])
    ∷ node_of (record { type = "ExternalIP"; address = "1.2.3.4" } ∷ [])
    ∷ []

abbrev pod_at : String → ℕ → Pod
pod_at name created = record {
  meta = record {
    name = name;
    namespace = "n";
    uid = name;
    labels = ("app", "web") ∷ [];
    annotations = [];
    created = created;
    deleted = none;
    owners = [];
  };
  spec = record {
    scheduler_name = "";
    node_name = "";
    host_network = false;
    containers = [];
    init_containers = [];
  };
  status = record {
    phase = "Running";
    reason = "";
    conditions = [];
    init_statuses = [];
    statuses = [];
  };
}

abbrev pods : List Pod
pods = pod_at "a" 3 ∷ pod_at "b" 9 ∷ pod_at "c" 9 ∷ []

abbrev service_of : String → Option (Map String) → Service
service_of type selector = record {
  name = "web";
  type = type;
  selector = selector;
  ports = record { port = 80; node_port = 30080 } ∷ record { port = 8888; node_port = 30088 } ∷ [];
  ingress = [];
}

abbrev services : List Service
services = service_of "NodePort" none ∷ service_of "ClusterIP" (some (("app", "web") ∷ [])) ∷ []

finds :
    (get_node_ip some_nodes ≡ "1.2.3.4")
    × (get_last_created_pod pods ≡ some (pod_at "b" 9))
    × (get_service_of_pod services (pod_at "a" 3)
        ≡ some (service_of "ClusterIP" (some (("app", "web") ∷ []))))
    × (get_service_urls none [] "1.2.3.4" (service_of "NodePort" none)
        ≡ "1.2.3.4:30080" ∷ "1.2.3.4:30088" ∷ [])
    × (get_service_urls
          (some (record (service_of "NodePort" none) {
            ingress = record { hostname = ""; ip = "5.6.7.8" } ∷ [];
          }))
          ((some (record { path = "/w"; service_name = "web"; service_port = 8888 } ∷ []) ∷ [])
            ∷ [])
          ""
          (service_of "ClusterIP" none)
        ≡ "http://5.6.7.8/w" ∷ "5.6.7.8:8888/w" ∷ [])
unfolding finding
finds = (refl, refl, refl, refl, refl)

node_ip_chosen :
    get_node_ip some_nodes
    ≡ best some_nodes nothing_known
        (get_external_ip_from_annotation_hack some_nodes)
        (find_first has_external some_nodes)
node_ip_chosen = get_node_ip-best some_nodes

get_last_created_pod-IsLast_example : IsLast pods (get_last_created_pod pods)
get_last_created_pod-IsLast_example = get_last_created_pod-IsLast pods

service_chosen : IsServiceOf services (pod_at "a" 3) (get_service_of_pod services (pod_at "a" 3))
service_chosen = get_service_of_pod-IsServiceOf services (pod_at "a" 3)
