-- ===== src/Mocks/Losant/Log.antt =====
-- An abstract view of the Losant mock: one log of its calls, the oldest first.
use losant_device.Prelude.{◌≡◌, Option, none, some, List, [], ◌∷◌, ◌++◌, String, Assoc}
use losant_device.Go.{GoError}
use losant_device.Http.{Action}
use losant_device.Api.LosantSync.{LosantSyncSpec}
use losant_device.Losant.{EdgeDeploymentStatus, Device, DeviceAttribute}
use losant_device.Mocks.{Mock}
use losant_device.Mocks.Losant.{
  MockClient, EnsureClusterDeviceCall, EnsureNodeDeviceCall, UpdateDeviceTagsCall, GetDeviceCall,
  CreateDeviceAccessKeyCall, PatchDeviceAttributesCall, DeleteDeviceCall, ReleaseWorkflowCall,
  GetEdgeDeploymentsCall, set_error, reset,
}
use losant_device.Mocks.Losant.Methods.{
  ping, ensure_cluster_device, ensure_node_device, update_device_tags, get_device,
  create_device_access_key, patch_device_attributes, delete_device, release_workflow,
  get_edge_deployments,
}

-- A call of a method, with its arguments.
pub data MockCall : Type 0 where
  pinged : MockCall
  cluster_device_ensured : EnsureClusterDeviceCall → MockCall
  node_device_ensured : EnsureNodeDeviceCall → MockCall
  device_tags_updated : UpdateDeviceTagsCall → MockCall
  device_read : GetDeviceCall → MockCall
  device_access_key_created : CreateDeviceAccessKeyCall → MockCall
  device_attributes_patched : PatchDeviceAttributesCall → MockCall
  device_deleted : DeleteDeviceCall → MockCall
  workflow_released : ReleaseWorkflowCall → MockCall
  edge_deployments_read : GetEdgeDeploymentsCall → MockCall

-- A handler that a test assigns to a Func field.
pub data MockHandler (W : Type 0) : Type 0 where
  ping_by : (Action W (Unit {0})) → MockHandler W
  ensure_cluster_device_by : (LosantSyncSpec → Action W String) → MockHandler W
  ensure_node_device_by : (LosantSyncSpec → String → String → Action W String) → MockHandler W
  update_device_tags_by : (String → String → Assoc String → Action W (Unit {0})) → MockHandler W
  get_device_by : (String → String → Action W (Option Device)) → MockHandler W
  create_device_access_key_by :
      (String → String → String → Action W (String × String × String)) → MockHandler W
  patch_device_attributes_by :
      (String → String → List DeviceAttribute → Action W (Unit {0})) → MockHandler W
  delete_device_by : (String → String → Action W (Unit {0})) → MockHandler W
  release_workflow_by : (String → String → String → String → Action W (Unit {0})) → MockHandler W
  get_edge_deployments_by : (String → String → Action W (List EdgeDeploymentStatus)) → MockHandler W

-- What a test does with the mock.
pub data MockOp (W : Type 0) : Type 0 where
  called : MockCall → MockOp W
  installed : MockHandler W → MockOp W
  errors_set : Option GoError → MockOp W
  cleared : MockOp W

module _ {W : Type 0} where
  abbrev pub call_method : MockCall → Mock (MockClient W) W → Mock (MockClient W) W
  call_method pinged s = (ping s).1
  call_method (cluster_device_ensured r) s = (ensure_cluster_device r.spec s).1
  call_method (node_device_ensured r) s = (ensure_node_device r.spec r.node_name r.gateway_id s).1
  call_method (device_tags_updated r) s =
      (update_device_tags r.application_id r.device_id r.tags s).1
  call_method (device_read r) s = (get_device r.application_id r.device_id s).1
  call_method (device_access_key_created r) s =
      (create_device_access_key r.application_id r.device_id r.name s).1
  call_method (device_attributes_patched r) s =
      (patch_device_attributes r.application_id r.device_id r.attrs s).1
  call_method (device_deleted r) s = (delete_device r.application_id r.device_id s).1
  call_method (workflow_released r) s =
      (release_workflow r.application_id r.device_id r.flow_id r.version s).1
  call_method (edge_deployments_read r) s = (get_edge_deployments r.application_id r.device_id s).1

  -- the assignment of a field
  unfoldable pub install : MockHandler W → MockClient W → MockClient W
  install (ping_by f) m = record m { ping_func = some f }
  install (ensure_cluster_device_by f) m = record m { ensure_cluster_device_func = some f }
  install (ensure_node_device_by f) m = record m { ensure_node_device_func = some f }
  install (update_device_tags_by f) m = record m { update_device_tags_func = some f }
  install (get_device_by f) m = record m { get_device_func = some f }
  install (create_device_access_key_by f) m = record m { create_device_access_key_func = some f }
  install (patch_device_attributes_by f) m = record m { patch_device_attributes_func = some f }
  install (delete_device_by f) m = record m { delete_device_func = some f }
  install (release_workflow_by f) m = record m { release_workflow_func = some f }
  install (get_edge_deployments_by f) m = record m { get_edge_deployments_func = some f }

  abbrev pub run_op : MockOp W → Mock (MockClient W) W → Mock (MockClient W) W
  run_op (called c) s = call_method c s
  run_op (installed h) s = record s { client = install h s.client }
  run_op (errors_set e) s = record s { client = set_error e s.client }
  run_op cleared s = record s { client = reset s.client }

  unfoldable pub run : List (MockOp W) → Mock (MockClient W) W → Mock (MockClient W) W
  run [] s = s
  run (op ∷ ops) s = run ops (run_op op s)

-- The log after an operation, and after several.
abbrev pub log_op : {W : Type 0} → MockOp W → List MockCall → List MockCall
log_op (called c) log = log ++ c ∷ []
log_op (installed h) log = log
log_op (errors_set e) log = log
log_op cleared log = []

abbrev pub log_of : {W : Type 0} → List (MockOp W) → List MockCall → List MockCall
log_of [] log = log
log_of (op ∷ ops) log = log_of ops (log_op op log)

-- The parts of a log that a test finds.
abbrev pub collect : {A : Type 0} → (MockCall → Option A) → List MockCall → List A
collect f [] = []
collect f (c ∷ log) = elim (f c) [ none ↦ collect f log | some a ↦ a ∷ collect f log ]

abbrev pub as_ping : MockCall → Option (Unit {0})
as_ping pinged = some tt
as_ping _ = none

abbrev pub as_ensure_cluster_device : MockCall → Option EnsureClusterDeviceCall
as_ensure_cluster_device (cluster_device_ensured r) = some r
as_ensure_cluster_device _ = none

abbrev pub as_ensure_node_device : MockCall → Option EnsureNodeDeviceCall
as_ensure_node_device (node_device_ensured r) = some r
as_ensure_node_device _ = none

abbrev pub as_update_device_tags : MockCall → Option UpdateDeviceTagsCall
as_update_device_tags (device_tags_updated r) = some r
as_update_device_tags _ = none

abbrev pub as_get_device : MockCall → Option GetDeviceCall
as_get_device (device_read r) = some r
as_get_device _ = none

abbrev pub as_create_device_access_key : MockCall → Option CreateDeviceAccessKeyCall
as_create_device_access_key (device_access_key_created r) = some r
as_create_device_access_key _ = none

abbrev pub as_patch_device_attributes : MockCall → Option PatchDeviceAttributesCall
as_patch_device_attributes (device_attributes_patched r) = some r
as_patch_device_attributes _ = none

abbrev pub as_delete_device : MockCall → Option DeleteDeviceCall
as_delete_device (device_deleted r) = some r
as_delete_device _ = none

abbrev pub as_release_workflow : MockCall → Option ReleaseWorkflowCall
as_release_workflow (workflow_released r) = some r
as_release_workflow _ = none

abbrev pub as_get_edge_deployments : MockCall → Option GetEdgeDeploymentsCall
as_get_edge_deployments (edge_deployments_read r) = some r
as_get_edge_deployments _ = none

-- The mock's records are the calls of the log, by their methods and in order.
pub record Records {W : Type 0} (m : MockClient W) (log : List MockCall) : Type 0 where
  pub ping_logged : m.ping_calls ≡ collect as_ping log
  pub ensure_cluster_device_logged :
      m.ensure_cluster_device_calls ≡ collect as_ensure_cluster_device log
  pub ensure_node_device_logged : m.ensure_node_device_calls ≡ collect as_ensure_node_device log
  pub update_device_tags_logged : m.update_device_tags_calls ≡ collect as_update_device_tags log
  pub get_device_logged : m.get_device_calls ≡ collect as_get_device log
  pub create_device_access_key_logged :
      m.create_device_access_key_calls ≡ collect as_create_device_access_key log
  pub patch_device_attributes_logged :
      m.patch_device_attributes_calls ≡ collect as_patch_device_attributes log
  pub delete_device_logged : m.delete_device_calls ≡ collect as_delete_device log
  pub release_workflow_logged : m.release_workflow_calls ≡ collect as_release_workflow log
  pub get_edge_deployments_logged :
      m.get_edge_deployments_calls ≡ collect as_get_edge_deployments log
