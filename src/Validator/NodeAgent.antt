-- ===== src/Validator/NodeAgent.antt =====
-- The check that PodConfig and LoadAffinityConfig of the node agent agree.
use oadp_operator.Prelude.{List, [], ◌∷◌, Option, none, some, Dict, lookup, ◌!=◌}
use oadp_operator.Api.{LabelSelector, PodConfig, ApplicationConfig}
use oadp_operator.Cluster.{M, message, ◌>>◌, pure, raise, raise_if}

module _ {W : Type 0} where
  -- Every label of the pod config must be among the labels of the selector.
  unfoldable pub check_labels : Dict → Dict → M W (Unit {0})
  check_labels [] labels = pure tt
  check_labels ((key, value) ∷ rest) labels = elim (lookup key labels) [
    | none ↦ raise (
        message
          "when spec.configuration.nodeAgent.PodConfig is set, all labels from the spec.configuration.nodeAgent.PodConfig must be present in spec.configuration.nodeAgent.LoadAffinityConfig")
    | some found ↦
        (raise_if (value != found) (
            message
              "when spec.configuration.nodeAgent.PodConfig is set, all labels from the spec.configuration.nodeAgent.PodConfig must be present in spec.configuration.nodeAgent.LoadAffinityConfig")
          >> check_labels rest labels)
  ]

  unfoldable pub check_affinity : PodConfig → LabelSelector → M W (Unit {0})
  check_affinity pod affinity = elim affinity.match_labels [
    | none ↦ raise (
        message
          "when spec.configuration.nodeAgent.PodConfig is set, spec.configuration.nodeAgent.LoadAffinityConfig must define matchLabels")
    | some labels ↦
        (raise_if affinity.has_match_expressions (
            message
              "when spec.configuration.nodeAgent.PodConfig is set, spec.configuration.nodeAgent.LoadAffinityConfig must not define matchExpressions")
          >> check_labels (elim pod.node_selector [ none ↦ [] | some selector ↦ selector ]) labels)
  ]

  -- An empty list of affinities passes.
  unfoldable pub check_affinities : PodConfig → List LabelSelector → M W (Unit {0})
  check_affinities pod [] = pure tt
  check_affinities pod (affinity ∷ []) = check_affinity pod affinity
  check_affinities pod (affinity ∷ more ∷ rest) = raise (
      message
        "when spec.configuration.nodeAgent.PodConfig is set, spec.configuration.nodeAgent.LoadAffinityConfig must contain no more than one entry")

  unfoldable pub check_pod_config : Option PodConfig → Option (List LabelSelector) → M W (Unit {0})
  check_pod_config pod affinities = elim pod [
    | none ↦ pure tt
    | some p ↦ elim affinities [ none ↦ pure tt | some list ↦ check_affinities p list ]
  ]

  unfoldable pub check_node_agent : ApplicationConfig → M W (Unit {0})
  check_node_agent configuration = elim configuration.node_agent [
    | none ↦ pure tt
    | some agent ↦ check_pod_config agent.pod_config agent.load_affinity_config
  ]
