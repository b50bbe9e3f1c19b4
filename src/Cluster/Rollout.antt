-- ===== src/Cluster/Rollout.antt =====
-- Which deployments `rolloutDeployments` updates, and how.
use pishop_operator.Base.{String, List, ◌∷◌, []}
use pishop_operator.Kube.{Deployment, Object}
use pishop_operator.Client.{Call}
use pishop_operator.Reconciler.{Reconciler, restart_annotation}
use pishop_operator.Cluster.{with_restart}

-- The updates of a rollout: every deployment, with the restart annotation set.
unfoldable pub rollout_calls : String → List Deployment → List Call
rollout_calls time [] = []
rollout_calls time (d ∷ ds) =
    Call.update (Object.deployment (with_restart restart_annotation time d)) ∷ rollout_calls time ds
