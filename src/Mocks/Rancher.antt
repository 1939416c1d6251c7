-- ===== src/Mocks/Rancher.antt =====
-- internal/rancher/mock_client.go: MockClient, the RancherClient of the tests.
use losant_device.Prelude.{String, Bool, false, Option, none, List, [], ◌∷◌, ◌++◌}
use losant_device.Go.{ok}
use losant_device.Http.{Action}
use losant_device.Rancher.{RancherClient}
use losant_device.Mocks.{Mock, invoke, given}

-- The records of the calls.
pub record FindClusterCall : Type 0 where
  pub name : String

pub record CreateClusterCall : Type 0 where
  pub name : String

pub record GetRegistrationTokenCall : Type 0 where
  pub cluster_id : String

pub record GetClusterCall : Type 0 where
  pub cluster_id : String

pub record DeleteClusterCall : Type 0 where
  pub cluster_id : String

-- A Func field that is nil is `none`; a handler acts on the test's world.
pub record MockClient (W : Type 0) : Type 0 where
  pub find_cluster_func : Option (String → Action W (String × Bool))
  pub create_cluster_func : Option (String → Action W String)
  pub get_registration_token_func : Option (String → Action W String)
  pub get_cluster_func : Option (String → Action W (Unit {0}))
  pub delete_cluster_func : Option (String → Action W (Unit {0}))
  pub find_cluster_calls : List FindClusterCall
  pub create_cluster_calls : List CreateClusterCall
  pub get_registration_token_calls : List GetRegistrationTokenCall
  pub get_cluster_calls : List GetClusterCall
  pub delete_cluster_calls : List DeleteClusterCall

-- NewMockRancherClient
unfoldable pub new_mock_rancher_client : {W : Type 0} → MockClient W
new_mock_rancher_client = record {
  find_cluster_func = none;
  create_cluster_func = none;
  get_registration_token_func = none;
  get_cluster_func = none;
  delete_cluster_func = none;
  find_cluster_calls = [];
  create_cluster_calls = [];
  get_registration_token_calls = [];
  get_cluster_calls = [];
  delete_cluster_calls = [];
}

module _ {W : Type 0} where
  -- Reset
  unfoldable pub reset : MockClient W → MockClient W
  reset m = record m {
    find_cluster_func = none;
    create_cluster_func = none;
    get_registration_token_func = none;
    get_cluster_func = none;
    delete_cluster_func = none;
    find_cluster_calls = [];
    create_cluster_calls = [];
    get_registration_token_calls = [];
    get_cluster_calls = [];
    delete_cluster_calls = [];
  }

  -- FindCluster
  unfoldable pub find_cluster : String → Action (Mock (MockClient W) W) (String × Bool)
  find_cluster name s =
      invoke (given s.client.find_cluster_func (λ fn. fn name)) (ok ("", false))
        (record s.client {
          find_cluster_calls = s.client.find_cluster_calls ++ record { name = name } ∷ [];
        })
        s.world

  -- CreateCluster
  unfoldable pub create_cluster : String → Action (Mock (MockClient W) W) String
  create_cluster name s =
      invoke (given s.client.create_cluster_func (λ fn. fn name)) (ok "mock-cluster-id")
        (record s.client {
          create_cluster_calls = s.client.create_cluster_calls ++ record { name = name } ∷ [];
        })
        s.world

  -- GetRegistrationToken
  unfoldable pub get_registration_token : String → Action (Mock (MockClient W) W) String
  get_registration_token cluster_id s =
      invoke (given s.client.get_registration_token_func (λ fn. fn cluster_id))
        (ok "https://rancher.example.com/manifest.yaml")
        (record s.client {
          get_registration_token_calls =
              s.client.get_registration_token_calls ++ record { cluster_id = cluster_id } ∷ [];
        })
        s.world

  -- GetCluster
  unfoldable pub get_cluster : String → Action (Mock (MockClient W) W) (Unit {0})
  get_cluster cluster_id s =
      invoke (given s.client.get_cluster_func (λ fn. fn cluster_id)) (ok tt)
        (record s.client {
          get_cluster_calls = s.client.get_cluster_calls ++ record { cluster_id = cluster_id } ∷ [];
        })
        s.world

  -- DeleteCluster
  unfoldable pub delete_cluster : String → Action (Mock (MockClient W) W) (Unit {0})
  delete_cluster cluster_id s =
      invoke (given s.client.delete_cluster_func (λ fn. fn cluster_id)) (ok tt)
        (record s.client {
          delete_cluster_calls =
              s.client.delete_cluster_calls ++ record { cluster_id = cluster_id } ∷ [];
        })
        s.world

  -- MockClient as a RancherClient
  abbrev pub rancher_client : RancherClient (Mock (MockClient W) W)
  rancher_client = record {
    find_cluster = find_cluster;
    create_cluster = create_cluster;
    get_registration_token = get_registration_token;
    get_cluster = get_cluster;
    delete_cluster = delete_cluster;
  }
