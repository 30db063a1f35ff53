-- ===== src/Nodes/Metrics.antt =====
-- The metrics of nodes: GroupMultiQueriesToItems of pkg/prometheus/client.go from the answers of the
-- queries, pkg/prometheus/helpers.go, and the GPUs of a node in pkg/nodes/node_info.go. A map in Go comes
-- in any order; here it is a list. The second part of a value is a text, and `none` is an error.
use runai_cli.Prelude.{String, Option, none, some, List, [], ◌∷◌, ◌++◌, Map, map, lookup, assign}
use runai_cli.Kube.{Pod}
use runai_cli.Trainer.Amounts.{Floats}
use runai_cli.Nodes.{get_shared_gpus_index_used_in_pods}

pub record MetricResult : Type 0 where
  pub metric : Map String
  pub value : String

abbrev pub QueryResults : Type 0
QueryResults = Map (List MetricResult)

-- A map of the items to the results by the names of the queries.
abbrev pub Items : Type 0
Items = Map QueryResults

abbrev pub or_empty {ℓ} : {A : Type ℓ} → Option (List A) → List A
or_empty none = []
or_empty (some xs) = xs

-- What is there for an item and a query.
abbrev pub results_at : Items → String → String → List MetricResult
results_at items item query = or_empty (lookup (or_empty (lookup items item)) query)

unfoldable pub add_result : Items → String → String → MetricResult → Items
unfolding lookup assign
add_result items item query result =
    assign items item
      (assign (or_empty (lookup items item)) query (results_at items item query ++ result ∷ []))

abbrev pub added : Items → Option String → String → MetricResult → Option Items
added items none query result = none
added items (some item) query result = some (add_result items item query result)

abbrev pub and_loop : Option Items → (Items → Option Items) → Option Items
and_loop none next = none
and_loop (some items) next = next items

-- The loop over the results of one query.
unfoldable pub results_loop : String → String → Items → List MetricResult → Option Items
unfolding lookup add_result
results_loop label query items [] = some items
results_loop label query items (result ∷ results) =
    and_loop (added items (lookup result.metric label) query result)
      (λ next. results_loop label query next results)

unfoldable pub queries_loop : String → Items → QueryResults → Option Items
unfolding results_loop
queries_loop label items [] = some items
queries_loop label items (query ∷ queries) =
    and_loop (results_loop label query.0 items query.1) (λ next. queries_loop label next queries)

-- From the answers of all queries, where `none` is the error of one of them.
unfoldable pub group_multi_queries_to_items : Option QueryResults → String → Option Items
unfolding queries_loop
group_multi_queries_to_items none label = none
group_multi_queries_to_items (some queries) label = queries_loop label [] queries

module _ (num : Floats) where
  open num use {Float, zero_float, parse_float}

  abbrev pub first_value : Float → List MetricResult → Option Float
  first_value before [] = some before
  first_value before (result ∷ results) = parse_float result.value

  -- The number that is set, which stays where there is no metric; `none` is an error.
  unfoldable pub set_float_from_first_metric : Float → QueryResults → String → Option Float
  unfolding lookup
  set_float_from_first_metric before results key =
      first_value before (or_empty (lookup results key))

  abbrev pub Values : Type 0
  Values = Map (Map Float)

  abbrev pub or_no_values : Option (Map Float) → Map Float
  or_no_values none = []
  or_no_values (some values) = values

  abbrev pub set_value : Values → Option String → String → Option Float → Option Values
  set_value values none query n = none
  set_value values (some key) query none = none
  set_value values (some key) query (some n) =
      some (assign values key (assign (or_no_values (lookup values key)) query n))

  abbrev pub and_values : Option Values → (Values → Option Values) → Option Values
  and_values none next = none
  and_values (some values) next = next values

  unfoldable pub values_loop : String → String → Values → List MetricResult → Option Values
  unfolding lookup assign
  values_loop group_by query values [] = some values
  values_loop group_by query values (result ∷ results) =
      and_values (set_value values (lookup result.metric group_by) query (parse_float result.value))
        (λ next. values_loop group_by query next results)

  unfoldable pub group_loop : String → Values → QueryResults → List String → Option Values
  unfolding values_loop
  group_loop group_by values metrics [] = some values
  group_loop group_by values metrics (query ∷ queries) =
      and_values (values_loop group_by query values (or_empty (lookup metrics query)))
        (λ next. group_loop group_by next metrics queries)

  unfoldable pub group_metrics : String → QueryResults → List String → Option Values
  unfolding group_loop
  group_metrics group_by metrics queries = group_loop group_by [] metrics queries

  -- A GPU of a node, without the texts that are printed of it.
  pub record Gpu : Type 0 where
    pub index_id : String
    pub allocated : Float
    pub memory : Float
    pub memory_usage : Float
    pub idle_time : Float
    pub utilization : Float

  abbrev pub value_or : Option Float → Float → Float
  value_or none other = other
  value_or (some x) other = x

  unfoldable pub gpu_of : Map Float → String × Map Float → Gpu
  unfolding lookup
  gpu_of fractions entry = record {
    index_id = entry.0;
    allocated =
        value_or (lookup fractions entry.0) (value_or (lookup entry.1 "gpuUsedByPod") zero_float);
    memory = value_or (lookup entry.1 "totalGpuMemory") zero_float;
    memory_usage = value_or (lookup entry.1 "usedGpuMemory") zero_float;
    idle_time = value_or (lookup entry.1 "gpuIdleTime") zero_float;
    utilization = value_or (lookup entry.1 "usedGpu") zero_float;
  }

  abbrev pub gpus_of : Map Float → Option Values → Option (List Gpu)
  gpus_of fractions none = none
  gpus_of fractions (some values) = some (map (gpu_of fractions) values)

  unfoldable pub set_gpus_from_prom_data_and_pods : QueryResults → List Pod → Option (List Gpu)
  unfolding group_metrics get_shared_gpus_index_used_in_pods gpu_of
  set_gpus_from_prom_data_and_pods metrics pods =
      gpus_of (get_shared_gpus_index_used_in_pods num pods) (
        group_metrics "gpu" metrics
          ("gpuIdleTime" ∷ "usedGpu" ∷ "usedGpuMemory" ∷ "totalGpuMemory" ∷ "gpuUsedByPod" ∷ []))
