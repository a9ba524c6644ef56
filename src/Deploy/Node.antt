-- ===== src/Deploy/Node.antt =====
-- `deployConfig` of pkg/deploy/deploy.go: what becomes of one configuration.
use dynatrace_configuration.Base.{ℕ, String, List, [], ◌∷◌, Option, none, some, if◌then◌else◌}
use dynatrace_configuration.Base.Value.{Fields}
use dynatrace_configuration.Config.Parameter.{Result, ok, err}
use dynatrace_configuration.Config.Entities.{ResolvedEntity, EntityMap}
use dynatrace_configuration.Config.Model.{Config, type_id}
use dynatrace_configuration.Config.Resolve.{Runtime, ResolveError, resolve_parameter_values}

-- `errSkip` is `excluded`.
pub data Outcome : Type 0 where
  deployed : ResolvedEntity → Outcome
  excluded : Outcome
  parameters_failed : List ResolveError → Outcome
  failed : String → Outcome

-- The outside of one deployment: rendering the template, and the `Deploy` method of each deployable
-- by type id, whose answer may differ with each call.
pub record World : Type 0 where
  pub runtime : Runtime
  pub render : Config → Fields → Result String
  pub deployables : String → Option (ℕ → Fields → String → Config → Result ResolvedEntity)

module _ (world : World) where
  abbrev answered : Result ResolvedEntity → Outcome
  answered (ok e) = deployed e
  answered (err reason) = failed reason

  abbrev call_deployable : ℕ → Config → Fields → String → Outcome
  call_deployable call c properties rendered = elim (world.deployables (type_id c.type)) [
    | some deploy ↦ answered (deploy call properties rendered c)
    | none ↦ failed "unknown config type"
  ]

  abbrev render_and_deploy : ℕ → Config → Fields → Outcome
  render_and_deploy call c properties = elim (world.render c properties) [
    | err reason ↦ failed reason
    | ok rendered ↦ call_deployable call c properties rendered
  ]

  abbrev resolve_and_deploy : ℕ → Config → Option (Fields × List ResolveError) → Outcome
  resolve_and_deploy call c none = failed "panic"
  resolve_and_deploy call c (some (properties, [])) = render_and_deploy call c properties
  resolve_and_deploy call c (some (properties, e ∷ es)) = parameters_failed (e ∷ es)

  unfoldable pub deploy_config : ℕ → Config → EntityMap → Outcome
  deploy_config call c entities =
      if c.skip
      then excluded
      else resolve_and_deploy call c (resolve_parameter_values world.runtime c entities)
