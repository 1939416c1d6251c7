-- ===== src/Rancher.antt =====
-- The interface RancherClient of internal/rancher/client.go.
pub mod Client
pub mod Replies
pub mod Registry
use losant_device.Prelude.{String, Bool}
use losant_device.Go.{Fallible}

pub record RancherClient (W : Type 0) : Type 0 where
  -- the cluster's ID and whether it was found
  pub find_cluster : String → W → Fallible (String × Bool) × W
  pub create_cluster : String → W → Fallible String × W
  pub get_registration_token : String → W → Fallible String × W
  pub get_cluster : String → W → Fallible (Unit {0}) × W
  pub delete_cluster : String → W → Fallible (Unit {0}) × W
