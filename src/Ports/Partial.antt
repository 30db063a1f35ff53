-- ===== src/Ports/Partial.antt =====
-- What stays behind when the cluster lists its pods but not its services.
use runai_cli.Prelude.{ℕ, none, some, List, [], ◌∷◌, ◌≡◌, true}
use mathlib.Core.Path.{subst}
use runai_cli.Kube.{Pod}
use runai_cli.Ports.{
  Answers, not_listed, failed, get_cluster_used_node_ports, init_k8s_cluster_used_port,
  select_available_port, pods_ports,
}
use runai_cli.Ports.Free.{IsSelected, select_available_port-IsSelected, init-cons}

select_fails :
    (answers : Answers) {pods : List Pod} {p : ℕ} {ps : List ℕ}
    → answers.pods ≡ some pods
    → answers.services ≡ none
    → pods_ports pods ≡ p ∷ ps
    → select_available_port answers [] ≡ (p ∷ ps, failed not_listed)
unfolding select_available_port init_k8s_cluster_used_port get_cluster_used_node_ports
select_fails answers h k e = rw (h, k, e)

-- Where the pods are listed and the services are not, a first call fails, but the ports of the pods
-- stay behind; every later call takes these for all that are used, and picks the first other one,
-- whatever services the cluster lists then.
pub select_available_port-partial :
    (answers again : Answers) {pods : List Pod} {p : ℕ} {ps : List ℕ}
    → answers.pods ≡ some pods
    → answers.services ≡ none
    → pods_ports pods ≡ p ∷ ps
    → (select_available_port answers [] ≡ (p ∷ ps, failed not_listed))
      × IsSelected (p ∷ ps, true) (select_available_port again (p ∷ ps))
select_available_port-partial answers again {p = p} {ps = ps} h k e = (
  select_fails answers h k e,
  subst (λ s. IsSelected s (select_available_port again (p ∷ ps))) (init-cons again p ps)
      (select_available_port-IsSelected again (p ∷ ps)),
)
