-- ===== src/Deploy/Loop.antt =====
-- `deployGraph`, `deployNode` and `removeChildren` of pkg/deploy/deploy.go. The goroutines of one
-- round are steps in an order that the environment chooses: each runs `deployNode` whole, since
-- the graph and the entities are locked and the roots of one round do not refer to one another.
use dynatrace_configuration.Base.{
  ℕ, zero, suc, ◌+◌, true, false, List, [], ◌∷◌, ◌++◌, Option, none, some, if◌then◌else◌, ltb,
}
use dynatrace_configuration.Config.Entities.{EntityMap, put_entity}
use dynatrace_configuration.Config.Model.{Config}
use dynatrace_configuration.Deploy.Graph.{DirectedGraph, roots}
use dynatrace_configuration.Deploy.Node.{
  Outcome, deployed, excluded, parameters_failed, failed, World, deploy_config,
}

-- What the reporter is told of a node.
pub data Status : Type 0 where
  status_deployed status_failed status_excluded status_skipped : Status

pub record Report : Type 0 where
  pub node : ℕ
  pub status : Status

module _ (D : DirectedGraph) where
  open D use {Graph, nodes, has_edge_from_to, from, remove_node}

  pub record State : Type 0 where
    pub graph : Graph
    pub entities : EntityMap
    pub reports : List Report
    pub calls : ℕ
    pub err_count : ℕ

module _ (D : DirectedGraph) where
  open D use {Graph, nodes, has_edge_from_to, from, remove_node}

  abbrev pub report : ℕ → Status → State D → State D
  report n status s = record s { reports = s.reports ++ record { node = n; status = status } ∷ [] }

  abbrev pub drop_node : State D → ℕ → State D
  drop_node s n = record s { graph = remove_node s.graph n }

  -- The loop over the children. The iterator yields a child only if the edge to it is still there
  -- when it is reached.
  unfoldable pub remove_each :
      (ℕ → State D → Option (State D)) → ℕ → List ℕ → State D → Option (State D)
  remove_each descend parent [] s = some s
  remove_each descend parent (child ∷ rest) s = elim (has_edge_from_to s.graph parent child) [
    | false ↦ remove_each descend parent rest s
    | true ↦ elim (descend child (report child status_skipped s)) [
      | none ↦ none
      | some s' ↦ remove_each descend parent rest (drop_node s' child)
    ]
  ]

  -- The fuel bounds the depth of the recursion; `none` means that it ran out.
  unfoldable pub remove_children : ℕ → ℕ → State D → Option (State D)
  remove_children zero parent s = none
  remove_children (suc fuel) parent s =
      remove_each (remove_children fuel) parent (from s.graph parent) s

  module _ (world : World) (config_of : ℕ → Config) where
    abbrev pub count_error : State D → State D
    count_error s = record s { err_count = s.err_count + 1 }

    abbrev pub after_failure : ℕ → Option (State D) → Option (State D)
    after_failure n none = none
    after_failure n (some s) = some (count_error (report n status_failed s))

    abbrev pub after_exclusion : ℕ → Option (State D) → Option (State D)
    after_exclusion n none = none
    after_exclusion n (some s) = some (report n status_excluded s)

    abbrev pub finish_node : ℕ → ℕ → State D → Outcome → Option (State D)
    finish_node fuel n s (deployed e) =
        some (report n status_deployed (record s { entities = put_entity e s.entities }))
    finish_node fuel n s excluded = after_exclusion n (remove_children fuel n s)
    finish_node fuel n s (parameters_failed es) = after_failure n (remove_children fuel n s)
    finish_node fuel n s (failed reason) = after_failure n (remove_children fuel n s)

    unfoldable pub deploy_node : ℕ → ℕ → State D → Option (State D)
    deploy_node fuel n s =
        finish_node fuel n (record s { calls = s.calls + 1 })
          (deploy_config world s.calls (config_of n) s.entities)

    unfoldable pub deploy_nodes : ℕ → List ℕ → State D → Option (State D)
    deploy_nodes fuel [] s = some s
    deploy_nodes fuel (n ∷ ns) s = elim (deploy_node fuel n s) [
      | none ↦ none
      | some s' ↦ deploy_nodes fuel ns s'
    ]

    unfoldable pub drop_nodes : List ℕ → State D → State D
    drop_nodes [] s = s
    drop_nodes (n ∷ ns) s = drop_nodes ns (drop_node s n)

    -- `order` is the order in which the goroutines of a round run.
    module _ (order : ℕ → List ℕ → List ℕ) where
      abbrev pub after_round : List ℕ → Option (State D) → Option (State D)
      after_round rs none = none
      after_round rs (some s) = some (drop_nodes rs s)

      unfoldable pub deploy_round : ℕ → State D → Option (State D)
      deploy_round fuel s =
          let rs = roots D s.graph in after_round rs (deploy_nodes fuel (order s.calls rs) s)

      unfoldable pub deploy_rounds : ℕ → ℕ → State D → Option (State D)
      deploy_rounds fuel zero s = none
      deploy_rounds fuel (suc rounds) s = elim (nodes s.graph) [
        | [] ↦ some s
        | n ∷ ns ↦ elim (deploy_round fuel s) [
          | none ↦ none
          | some s' ↦ deploy_rounds fuel rounds s'
        ]
      ]

      abbrev pub start : Graph → State D
      start g = record { graph = g; entities = []; reports = []; calls = 0; err_count = 0 }

      -- The final state, and the error with its count if there is one. The fuel bounds the depth of
      -- the graph, and the rounds its nodes.
      abbrev result_of : State D → State D × Option ℕ
      result_of s = (s, if ltb 0 s.err_count then some s.err_count else none)

      unfoldable pub deploy_graph : ℕ → ℕ → Graph → Option (State D × Option ℕ)
      deploy_graph fuel rounds g = elim (deploy_rounds fuel rounds (start g)) [
        | none ↦ none
        | some s ↦ some (result_of s)
      ]
