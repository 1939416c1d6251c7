-- ===== src/Losant/Shared.antt =====
-- internal/losant/client.go: devices of two clusters that have one name.
use losant_device.Prelude.{String, ◌⊕◌, ◌≡◌, refl, sym, Option}
use losant_device.Go.{ok}
use losant_device.Api.LosantSync.{LosantSyncSpec}
use losant_device.Losant.Devices.{node_device_name}
use losant_device.Losant.Request.{Env, HttpClient}
use losant_device.Losant.Client.{ensure_node_device}
use losant_device.Losant.Registry.{Serves}
use losant_device.Registry.{Ensures-after, Ensures-known}
use losant_device.Losant.Ensure.{node, ensure-Ensures}
use package.text.Mathlib.TextLemmas.{append_assoc}

node_device_name-shared :
    (cluster part node_name : String)
    → node_device_name (cluster ⊕ ("-" ⊕ part)) node_name
      ≡ node_device_name cluster (part ⊕ ("-" ⊕ node_name))
unfolding node_device_name
node_device_name-shared cluster part node_name = rw (append_assoc, append_assoc) refl

-- Two clusters of one Losant application share a device, where one cluster's name starts with the
-- other's and a dash: EnsureNodeDevice for the node "n" of the cluster "c-x", and after it for the
-- node "x-n" of the cluster "c", returns one and the same ID, if both calls return and Losant's
-- API serves this name as documented.
pub ensure_node_device-shared :
    {W : Type 0} (env : Env W) (c : HttpClient) (spec other : LosantSyncSpec)
    (registry : String → W → Option String)
    (cluster part node_name gateway other_gateway id other_id : String) (w : W)
    → spec.cluster_name ≡ cluster ⊕ ("-" ⊕ part)
    → other.cluster_name ≡ cluster
    → other.application_id ≡ spec.application_id
    → Serves env c spec.application_id registry (node_device_name spec.cluster_name node_name)
    → (ensure_node_device env c spec node_name gateway w).0 ≡ ok id
    → (ensure_node_device env c other
        (part ⊕ ("-" ⊕ node_name))
        other_gateway
        (ensure_node_device env c spec node_name gateway w).1).0
      ≡ ok other_id
    → other_id ≡ id
ensure_node_device-shared env c spec other registry cluster part node_name gateway other_gateway id
      other_id w long short one serves first second =
    let name = node_device_name spec.cluster_name node_name in
    let between = (ensure_node_device env c spec node_name gateway w).1 in
    let same : node_device_name other.cluster_name (part ⊕ ("-" ⊕ node_name)) ≡ name =
      rw (short, long) (sym (node_device_name-shared cluster part node_name)) in
    let made =
      Ensures-after
        (ensure-Ensures env c spec registry (node node_name gateway) w id serves first) in
    Ensures-known (rw same made) (
      ensure-Ensures env c other registry (node (part ⊕ ("-" ⊕ node_name)) other_gateway) between
        other_id (rw (one, same) serves) second)
