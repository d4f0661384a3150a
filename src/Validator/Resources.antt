-- ===== src/Validator/Resources.antt =====
-- getVeleroResourceReqs and getNodeAgentResourceReqs of internal/controller/velero.go, of which the
-- validator asks only for the error.
use oadp_operator.Prelude.{String, Option, none, some, if◌then◌else◌}
use oadp_operator.Api.{ResourceList, ResourceRequirements, VeleroConfig, ApplicationConfig}
use oadp_operator.Cluster.{Client, M, api, ◌>>◌, pure, raise}

module _ (c : Client) where
  check_quantity : Option String → M c.World (Unit {0})
  check_quantity quantity = elim quantity [
    | none ↦ pure tt
    | some q ↦
        if c.is_zero_quantity q
        then pure tt
        else elim (c.quantity_error q) [ none ↦ pure tt | some e ↦ raise (api e) ]
  ]

  -- getResourceListFrom
  unfoldable pub get_resource_list_from : ResourceList → M c.World (Unit {0})
  unfolding check_quantity
  get_resource_list_from list =
      check_quantity list.cpu
      >> (check_quantity list.memory >> check_quantity list.ephemeral_storage)

  -- getResourceReqs
  unfoldable pub get_resource_reqs : ResourceRequirements → M c.World (Unit {0})
  get_resource_reqs r =
      elim r.requests [ none ↦ pure tt | some list ↦ get_resource_list_from list ]
      >> elim r.limits [ none ↦ pure tt | some list ↦ get_resource_list_from list ]

  unfoldable pub get_velero_resource_reqs : VeleroConfig → M c.World (Unit {0})
  get_velero_resource_reqs velero = elim velero.resource_allocations [
    | none ↦ pure tt
    | some r ↦ get_resource_reqs r
  ]

  unfoldable pub get_node_agent_resource_reqs : ApplicationConfig → M c.World (Unit {0})
  get_node_agent_resource_reqs configuration = elim configuration.node_agent [
    | none ↦ pure tt
    | some agent ↦ elim agent.pod_config [
      | none ↦ pure tt
      | some pod ↦ get_resource_reqs pod.resource_allocations
    ]
  ]
