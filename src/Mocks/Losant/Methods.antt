-- ===== src/Mocks/Losant/Methods.antt =====
-- internal/losant/mock_client.go: the methods of MockClient.
use losant_device.Prelude.{String, ◌⊕◌, Option, some, List, [], ◌∷◌, ◌++◌, Assoc}
use losant_device.Go.{ok}
use losant_device.Http.{Action}
use losant_device.Api.LosantSync.{LosantSyncSpec}
use losant_device.Losant.{LosantClient, EdgeDeploymentStatus, Device, DeviceAttribute}
use losant_device.Mocks.{Mock, invoke, given}
use losant_device.Mocks.Losant.{MockClient, EnsureClusterDeviceCall, EnsureNodeDeviceCall}

module _ {W : Type 0} where
  -- Ping
  unfoldable pub ping : Action (Mock (MockClient W) W) (Unit {0})
  ping s =
      invoke s.client.ping_func (ok tt)
        (record s.client { ping_calls = s.client.ping_calls ++ (tt) ∷ [] }) s.world

  -- EnsureClusterDevice
  unfoldable pub ensure_cluster_device : LosantSyncSpec → Action (Mock (MockClient W) W) String
  ensure_cluster_device spec s =
      invoke (given s.client.ensure_cluster_device_func (λ fn. fn spec))
        (ok "mock-cluster-device-id")
        (record s.client {
          ensure_cluster_device_calls =
              s.client.ensure_cluster_device_calls ++ (record { spec = spec }) ∷ [];
        })
        s.world

  -- EnsureNodeDevice
  unfoldable pub ensure_node_device :
      LosantSyncSpec → String → String → Action (Mock (MockClient W) W) String
  ensure_node_device spec node_name gateway_id s =
      invoke (given s.client.ensure_node_device_func (λ fn. fn spec node_name gateway_id))
        (ok ("mock-node-" ⊕ node_name))
        (record s.client {
          ensure_node_device_calls =
              s.client.ensure_node_device_calls
              ++ (record { spec = spec; node_name = node_name; gateway_id = gateway_id }) ∷ [];
        })
        s.world

  -- UpdateDeviceTags
  unfoldable pub update_device_tags :
      String → String → Assoc String → Action (Mock (MockClient W) W) (Unit {0})
  update_device_tags application_id device_id tags s =
      invoke (given s.client.update_device_tags_func (λ fn. fn application_id device_id tags))
        (ok tt)
        (record s.client {
          update_device_tags_calls =
              s.client.update_device_tags_calls
              ++ (record { application_id = application_id; device_id = device_id; tags = tags })
                ∷ [];
        })
        s.world

  -- GetDevice
  unfoldable pub get_device : String → String → Action (Mock (MockClient W) W) (Option Device)
  get_device application_id device_id s =
      invoke (given s.client.get_device_func (λ fn. fn application_id device_id))
        (ok (some (record { device_id = device_id; name = ""; tags = [] })))
        (record s.client {
          get_device_calls =
              s.client.get_device_calls
              ++ (record { application_id = application_id; device_id = device_id }) ∷ [];
        })
        s.world

  -- CreateDeviceAccessKey
  unfoldable pub create_device_access_key :
      String → String → String → Action (Mock (MockClient W) W) (String × String × String)
  create_device_access_key application_id device_id name s =
      invoke (given s.client.create_device_access_key_func (λ fn. fn application_id device_id name))
        (ok ("mock-key-id", "mock-access-key", "mock-access-secret"))
        (record s.client {
          create_device_access_key_calls =
              s.client.create_device_access_key_calls
              ++ (record { application_id = application_id; device_id = device_id; name = name })
                ∷ [];
        })
        s.world

  -- PatchDeviceAttributes
  unfoldable pub patch_device_attributes :
      String → String → List DeviceAttribute → Action (Mock (MockClient W) W) (Unit {0})
  patch_device_attributes application_id device_id attrs s =
      invoke (given s.client.patch_device_attributes_func (λ fn. fn application_id device_id attrs))
        (ok tt)
        (record s.client {
          patch_device_attributes_calls =
              s.client.patch_device_attributes_calls
              ++ (record { application_id = application_id; device_id = device_id; attrs = attrs })
                ∷ [];
        })
        s.world

  -- DeleteDevice
  unfoldable pub delete_device : String → String → Action (Mock (MockClient W) W) (Unit {0})
  delete_device application_id device_id s =
      invoke (given s.client.delete_device_func (λ fn. fn application_id device_id)) (ok tt)
        (record s.client {
          delete_device_calls =
              s.client.delete_device_calls
              ++ (record { application_id = application_id; device_id = device_id }) ∷ [];
        })
        s.world

  -- ReleaseWorkflow
  unfoldable pub release_workflow :
      String → String → String → String → Action (Mock (MockClient W) W) (Unit {0})
  release_workflow application_id device_id flow_id version s =
      invoke
        (given s.client.release_workflow_func (λ fn. fn application_id device_id flow_id version))
        (ok tt)
        (record s.client {
          release_workflow_calls =
              s.client.release_workflow_calls
              ++ (record {
                application_id = application_id;
                device_id = device_id;
                flow_id = flow_id;
                version = version;
              })
                ∷ [];
        })
        s.world

  -- GetEdgeDeployments
  unfoldable pub get_edge_deployments :
      String → String → Action (Mock (MockClient W) W) (List EdgeDeploymentStatus)
  get_edge_deployments application_id device_id s =
      invoke (given s.client.get_edge_deployments_func (λ fn. fn application_id device_id)) (ok [])
        (record s.client {
          get_edge_deployments_calls =
              s.client.get_edge_deployments_calls
              ++ (record { application_id = application_id; device_id = device_id }) ∷ [];
        })
        s.world

  -- GetEnsureClusterDeviceCalls, whose copy is a value of its own
  abbrev pub get_ensure_cluster_device_calls : MockClient W → List EnsureClusterDeviceCall
  get_ensure_cluster_device_calls m = m.ensure_cluster_device_calls

  -- GetEnsureNodeDeviceCalls
  abbrev pub get_ensure_node_device_calls : MockClient W → List EnsureNodeDeviceCall
  get_ensure_node_device_calls m = m.ensure_node_device_calls

  -- MockClient as a LosantClient
  abbrev pub losant_client : LosantClient (Mock (MockClient W) W)
  losant_client = record {
    ping = ping;
    ensure_cluster_device = ensure_cluster_device;
    ensure_node_device = ensure_node_device;
    create_device_access_key = create_device_access_key;
    delete_device = delete_device;
    release_workflow = release_workflow;
    get_edge_deployments = get_edge_deployments;
  }
