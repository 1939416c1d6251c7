-- ===== src/Sync/Devices.antt =====
-- The devices of a LosantSync: the loop of Reconcile that ensures the nodes' devices, and
-- handleDeletion, which deletes them all.
use losant_device.Prelude.{String, ◌⊕◌, none, some, [], ◌∷◌, Assoc, insert, if◌then◌else◌}
use losant_device.Go.{Fallible, ok, wrap, is_empty}
use losant_device.Exec.{◌>>=◌, ◌>>◌, call, read, value, pure, finished, failed, empty_result}
use losant_device.Api.LosantSync.{LosantSync}
use losant_device.Losant.{LosantClient, sync_updated, node_ensured, device_deleted}
use losant_device.Monitor.{NodeHealth}
use losant_device.Kube.{Secret}
use losant_device.Sync.{Env, Handler, Part, devices_provisioned, device_finalizer}
use losant_device.Sync.Schedule.{set_degraded}

-- ls.Status.NodeDevices[nodeName] = nodeDeviceID
abbrev pub with_node_device : LosantSync → String → String → LosantSync
with_node_device ls node id = record ls {
  status = record ls.status { node_devices = insert node id ls.status.node_devices };
}

module _ {W F : Type 0} (env : Env W F) where
  -- Step 5: the device of each node of the snapshot
  unfoldable pub ensure_node_devices :
      LosantClient W → String → Assoc (NodeHealth F) → LosantSync → Part W F LosantSync
  unfolding set_degraded
  ensure_node_devices lc cluster_id [] ls = pure ls
  ensure_node_devices lc cluster_id ((node, _) ∷ nodes) ls = do
    ensured ← call (node_ensured node) (lc.ensure_node_device ls.spec node cluster_id)
    id ← value ensured λ e.
        set_degraded env ls devices_provisioned "NodeDeviceError"
          ("node " ⊕ (node ⊕ (": " ⊕ e.text)))
    ensure_node_devices lc cluster_id nodes (with_node_device ls node id)

  -- the injected client, or one for the secret
  abbrev pub losant_client_of : Secret → LosantSync → Fallible (LosantClient W)
  losant_client_of secret ls = elim env.losant_client [
    | some lc ↦ ok lc
    | none ↦ env.new_losant_client secret ls.spec.application_id
  ]

  -- the loop over the nodes' devices; an error is returned
  unfoldable pub delete_devices : LosantClient W → LosantSync → Assoc String → Part W F (Unit {0})
  delete_devices lc ls [] = pure tt
  delete_devices lc ls ((_, id) ∷ devices) = do
    deleted ← call (device_deleted id) (lc.delete_device ls.spec.application_id id)
    value deleted (λ e. pure (failed e))
    delete_devices lc ls devices

  -- the end of handleDeletion
  unfoldable pub release_finalizer : LosantSync → Handler W F
  release_finalizer ls = do
    let ls = record ls { finalizers = env.meta.remove_finalizer device_finalizer ls.finalizers }
    written ← call (sync_updated ls) (env.kube.update_losant_sync ls)
    value written (λ e. pure (failed e))
    pure (finished empty_result)

  -- the cluster's device, if there is one
  unfoldable pub delete_cluster_device : LosantClient W → LosantSync → Part W F (Unit {0})
  delete_cluster_device lc ls = if is_empty ls.status.cluster_device_id then pure tt else (do
    deleted ←
        call (device_deleted ls.status.cluster_device_id)
          (lc.delete_device ls.spec.application_id ls.status.cluster_device_id)
    value deleted (λ e. pure (failed e)))

  -- the deletions of handleDeletion, then the finalizer's
  unfoldable pub delete_all : LosantClient W → LosantSync → Handler W F
  delete_all lc ls = do
    delete_devices lc ls ls.status.node_devices
    delete_cluster_device lc ls
    release_finalizer ls

  -- handleDeletion
  unfoldable pub handle_deletion : LosantSync → Handler W F
  handle_deletion ls =
      if env.meta.contains_finalizer device_finalizer ls.finalizers
      then (do
        found ← read (env.kube.get_secret ls.spec.provisioning_secret_ref)
        secret ← value found λ e. pure (failed (wrap "deletion: read provisioning secret" e))
        lc ←
            value (losant_client_of secret ls)
              λ e. pure (failed (wrap "deletion: construct losant client" e))
        delete_all lc ls)
      else pure (finished empty_result)
