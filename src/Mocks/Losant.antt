-- ===== src/Mocks/Losant.antt =====
-- internal/losant/mock_client.go: MockClient, the LosantClient of the tests. Its mutex makes one
-- step of each method's record and of each of the other operations.
pub mod Methods
pub mod Log
pub mod Logged
use losant_device.Prelude.{
  ℕ, ◌+◌, String, ◌⊕◌, Option, none, some, List, [], ◌∷◌, ◌++◌, Assoc, length,
}
use losant_device.Go.{GoError, Fallible, ok, err}
use losant_device.Http.{Action}
use losant_device.Api.LosantSync.{LosantSyncSpec}
use losant_device.Losant.{LosantClient, EdgeDeploymentStatus, Device, DeviceAttribute}
use losant_device.Mocks.{failing}

-- The records of the calls.
pub record EnsureClusterDeviceCall : Type 0 where
  pub spec : LosantSyncSpec

pub record EnsureNodeDeviceCall : Type 0 where
  pub spec : LosantSyncSpec
  pub node_name : String
  pub gateway_id : String

pub record UpdateDeviceTagsCall : Type 0 where
  pub application_id : String
  pub device_id : String
  pub tags : Assoc String

pub record GetDeviceCall : Type 0 where
  pub application_id : String
  pub device_id : String

pub record CreateDeviceAccessKeyCall : Type 0 where
  pub application_id : String
  pub device_id : String
  pub name : String

pub record PatchDeviceAttributesCall : Type 0 where
  pub application_id : String
  pub device_id : String
  pub attrs : List DeviceAttribute

pub record DeleteDeviceCall : Type 0 where
  pub application_id : String
  pub device_id : String

pub record ReleaseWorkflowCall : Type 0 where
  pub application_id : String
  pub device_id : String
  pub flow_id : String
  pub version : String

pub record GetEdgeDeploymentsCall : Type 0 where
  pub application_id : String
  pub device_id : String

-- A Func field that is nil is `none`; a handler acts on the test's world. GetDevice returns a
-- pointer, which may be nil.
pub record MockClient (W : Type 0) : Type 0 where
  pub ping_func : Option (Action W (Unit {0}))
  pub ensure_cluster_device_func : Option (LosantSyncSpec → Action W String)
  pub ensure_node_device_func : Option (LosantSyncSpec → String → String → Action W String)
  pub update_device_tags_func : Option (String → String → Assoc String → Action W (Unit {0}))
  pub get_device_func : Option (String → String → Action W (Option Device))
  pub create_device_access_key_func :
      Option (String → String → String → Action W (String × String × String))
  pub patch_device_attributes_func :
      Option (String → String → List DeviceAttribute → Action W (Unit {0}))
  pub delete_device_func : Option (String → String → Action W (Unit {0}))
  pub release_workflow_func : Option (String → String → String → String → Action W (Unit {0}))
  pub get_edge_deployments_func : Option (String → String → Action W (List EdgeDeploymentStatus))
  pub ping_calls : List (Unit {0})
  pub ensure_cluster_device_calls : List EnsureClusterDeviceCall
  pub ensure_node_device_calls : List EnsureNodeDeviceCall
  pub update_device_tags_calls : List UpdateDeviceTagsCall
  pub get_device_calls : List GetDeviceCall
  pub create_device_access_key_calls : List CreateDeviceAccessKeyCall
  pub patch_device_attributes_calls : List PatchDeviceAttributesCall
  pub delete_device_calls : List DeleteDeviceCall
  pub release_workflow_calls : List ReleaseWorkflowCall
  pub get_edge_deployments_calls : List GetEdgeDeploymentsCall

-- NewMockClient
unfoldable pub new_mock_client : {W : Type 0} → MockClient W
new_mock_client = record {
  ping_func = none;
  ensure_cluster_device_func = none;
  ensure_node_device_func = none;
  update_device_tags_func = none;
  get_device_func = none;
  create_device_access_key_func = none;
  patch_device_attributes_func = none;
  delete_device_func = none;
  release_workflow_func = none;
  get_edge_deployments_func = none;
  ping_calls = [];
  ensure_cluster_device_calls = [];
  ensure_node_device_calls = [];
  update_device_tags_calls = [];
  get_device_calls = [];
  create_device_access_key_calls = [];
  patch_device_attributes_calls = [];
  delete_device_calls = [];
  release_workflow_calls = [];
  get_edge_deployments_calls = [];
}

module _ {W : Type 0} where
  -- SetError, whose error may be nil
  unfoldable pub set_error : Option GoError → MockClient W → MockClient W
  set_error e m = record m {
    ping_func = some (λ w. (failing tt e, w));
    ensure_cluster_device_func = some (λ _ w. (failing "" e, w));
    ensure_node_device_func = some (λ _ _ _ w. (failing "" e, w));
    update_device_tags_func = some (λ _ _ _ w. (failing tt e, w));
    get_device_func = some (λ _ _ w. (failing none e, w));
    create_device_access_key_func = some (λ _ _ _ w. (failing ("", "", "") e, w));
    patch_device_attributes_func = some (λ _ _ _ w. (failing tt e, w));
    delete_device_func = some (λ _ _ w. (failing tt e, w));
    release_workflow_func = some (λ _ _ _ _ w. (failing tt e, w));
    get_edge_deployments_func = some (λ _ _ w. (failing [] e, w));
  }

  -- CallCount
  unfoldable pub call_count : MockClient W → ℕ
  call_count m =
      length m.ping_calls
      + length m.ensure_cluster_device_calls
      + length m.ensure_node_device_calls
      + length m.update_device_tags_calls
      + length m.get_device_calls
      + length m.create_device_access_key_calls
      + length m.patch_device_attributes_calls
      + length m.delete_device_calls
      + length m.release_workflow_calls
      + length m.get_edge_deployments_calls

  -- Reset
  unfoldable pub reset : MockClient W → MockClient W
  reset m = record m {
    ping_func = none;
    ensure_cluster_device_func = none;
    ensure_node_device_func = none;
    update_device_tags_func = none;
    get_device_func = none;
    create_device_access_key_func = none;
    patch_device_attributes_func = none;
    delete_device_func = none;
    release_workflow_func = none;
    get_edge_deployments_func = none;
    ping_calls = [];
    ensure_cluster_device_calls = [];
    ensure_node_device_calls = [];
    update_device_tags_calls = [];
    get_device_calls = [];
    create_device_access_key_calls = [];
    patch_device_attributes_calls = [];
    delete_device_calls = [];
    release_workflow_calls = [];
    get_edge_deployments_calls = [];
  }
