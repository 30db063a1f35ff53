-- ===== src/Ports/Tests.antt =====
-- Ports picked at concrete clusters.
use runai_cli.Prelude.{false, true, none, some, [], ◌∷◌, ◌≡◌, ◌<◌, refl, any}
use runai_cli.Kube.{Pod}
use runai_cli.Ports.{
  Answers, port, failed, not_listed, pods_ports, containers_ports, container_ports,
  exclude_inactive_pod, services_ports, get_cluster_used_node_ports, init_k8s_cluster_used_port,
  is_port_in_used, select_loop, select_available_port, select_available_port_with_default,
}
use runai_cli.Ports.Free.{IsSelected, select_available_port-IsSelected, select_available_port-lt}
use runai_cli.Ports.Partial.{select_available_port-partial}

-- What a test unfolds to pick a port.
picking : Unit {0}
unfolding select_available_port select_available_port_with_default init_k8s_cluster_used_port
    get_cluster_used_node_ports pods_ports containers_ports container_ports exclude_inactive_pod
    services_ports select_loop is_port_in_used any
picking = tt

abbrev some_pod : Pod
some_pod = record {
  meta = record {
    name = "p";
    namespace = "n";
    uid = "u";
    labels = [];
    annotations = [];
    created = 0;
    deleted = none;
    owners = [];
  };
  spec = record {
    scheduler_name = "";
    node_name = "node";
    host_network = false;
    containers =
        record {
          name = "c";
          image = "";
          limits = [];
          requests = [];
          ports = record { host_port = 20001; container_port = 80 } ∷ [];
        }
        ∷ [];
    init_containers = [];
  };
  status = record {
    phase = "Running";
    reason = "";
    conditions = [];
    init_statuses = [];
    statuses = [];
  };
}

abbrev all_listed : Answers
all_listed = record {
  pods = some (some_pod ∷ []);
  services = some (record { type = "NodePort"; node_ports = 20000 ∷ [] } ∷ []);
}

abbrev pods_listed : Answers
pods_listed = record { pods = some (some_pod ∷ []); services = none }

picks :
    (select_available_port all_listed [] ≡ (20001 ∷ 20000 ∷ 20002 ∷ [], port 20002))
    × (select_available_port pods_listed [] ≡ (20001 ∷ [], failed not_listed))
    × (select_available_port all_listed (20001 ∷ []) ≡ (20001 ∷ 20000 ∷ [], port 20000))
    × (select_available_port_with_default all_listed [] 8080 ≡ ([], port 8080))
unfolding picking
picks = (refl, refl, refl, refl)

select_available_port-IsSelected_example :
    IsSelected (init_k8s_cluster_used_port all_listed []) (select_available_port all_listed [])
select_available_port-IsSelected_example = select_available_port-IsSelected all_listed []

port_below : 20002 < 20003
unfolding picking
port_below =
    select_available_port-lt all_listed pods_listed [] (20001 ∷ 20000 ∷ 20002 ∷ [])
      (20001 ∷ 20000 ∷ 20002 ∷ 20003 ∷ []) 20002 20003 refl refl

ports_run_out :
    (select_available_port pods_listed [] ≡ (20001 ∷ [], failed not_listed))
    × IsSelected (20001 ∷ [], true) (select_available_port all_listed (20001 ∷ []))
unfolding picking
ports_run_out =
    select_available_port-partial pods_listed all_listed {pods = some_pod ∷ []} {p = 20001}
      {ps = []} refl refl refl
