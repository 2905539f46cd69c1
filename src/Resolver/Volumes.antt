-- ===== src/Resolver/Volumes.antt =====
-- The loop of `GetNodesFromNamespacedPVCSelector` over claims, which gives the volumes to read.
use node_disruption_controll.Prelude.{String, ◌<>◌, List, [], ◌∷◌}
use node_disruption_controll.Api.Objects.{
  ClaimPhase, bound, lost, pending, other, PersistentVolumeClaim,
}
use node_disruption_controll.Client.Monad.{Result, ok, err, failure}

abbrev unsafe_suffix : String
unsafe_suffix = "It is unsafe to grant disruption in this state"

unfoldable pub add_volume : PersistentVolumeClaim → Result (List String) → Result (List String)
add_volume pvc (ok names) = ok (pvc.volume_name ∷ names)
add_volume pvc (err e) = err e

-- What one claim does to the loop, by its phase; the loop stops at the first claim that is
-- neither bound nor pending.
unfoldable pub visit_claim :
    ClaimPhase → PersistentVolumeClaim → Result (List String) → Result (List String)
unfolding add_volume
visit_claim bound pvc rest = add_volume pvc rest
visit_claim pending pvc rest = rest
visit_claim lost pvc rest =
    err (failure ("PVC " <> pvc.name <> " is marked lost. " <> unsafe_suffix))
visit_claim (other phase) pvc rest =
    err
      (failure ("PVC " <> pvc.name <> " is unexpected phase (" <> phase <> "). " <> unsafe_suffix))

unfoldable pub volumes_to_fetch : List PersistentVolumeClaim → Result (List String)
unfolding visit_claim
volumes_to_fetch [] = ok []
volumes_to_fetch (pvc ∷ pvcs) = visit_claim pvc.phase pvc (volumes_to_fetch pvcs)
