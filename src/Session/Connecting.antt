-- ===== src/Session/Connecting.antt =====
-- What a session's connection to Rancher has done when it waits for the agent.
use losant_device.Prelude.{String, ◌≡◌, Bool, true, false, ◌||◌, List, [], ◌∷◌, arith, str_eq}
use losant_device.Go.{ok}
use losant_device.Exec.{Sys}
use losant_device.Rancher.{RancherClient}
use losant_device.Api.RancherSession.{RancherSession, connecting}
use losant_device.Session.Env.{Env, Call, Handle, cluster_sought, cluster_created, token_read}
use losant_device.Session.Manifests.{apply_manifest}
use losant_device.Session.Manifests.Keeps.{apply_manifest_keeps}
use losant_device.Session.Connect.{ensure_cluster, register, handle_connect}

-- The call before was a search for that name, which found none.
abbrev pub NoneFound : String → List Call → Type 0
NoneFound name (cluster_sought n (ok x) ∷ calls) = (n ≡ name) × (x.1 ≡ false)
NoneFound name _ = ⊥

-- Each cluster was created right after Rancher answered that it has none of that name.
abbrev pub CreatedMissing : List Call → Type 0
CreatedMissing [] = Unit
CreatedMissing (cluster_created name _ ∷ calls) = NoneFound name calls × CreatedMissing calls
CreatedMissing (_ ∷ calls) = CreatedMissing calls

-- Rancher gave a registration token for this cluster.
abbrev pub has_token : String → List Call → Bool
has_token id [] = false
has_token id (token_read j (ok _) ∷ calls) = str_eq j id || has_token id calls
has_token id (_ ∷ calls) = has_token id calls

module _ {W : Type 0} (env : Env W) (rs : RancherSession) where
  CreatedMissing-apply_manifest :
      (url : String) (s : Sys W Call)
      → CreatedMissing s.trace
      → CreatedMissing (apply_manifest env rs url s).1.trace
  CreatedMissing-apply_manifest =
      apply_manifest_keeps env CreatedMissing (λ obj r calls h. h) (λ url f calls h. h) rs

  ensure_cluster-CreatedMissing :
      (rc : RancherClient W) (s : Sys W Call)
      → CreatedMissing s.trace
      → CreatedMissing (ensure_cluster env rs rc s).1.trace
  unfolding ensure_cluster
  ensure_cluster-CreatedMissing rc s h = grind arith

module _ {W : Type 0} (env : Env W) (rs : RancherSession) where
  -- handleConnect creates a cluster in Rancher only right after Rancher has answered that it has
  -- none of that name; so does a trace that it continues, if that did before.
  pub handle_connect-CreatedMissing :
      (rc : Handle W) (s : Sys W Call)
      → CreatedMissing s.trace
      → CreatedMissing (handle_connect env rs rc s).1.trace
  unfolding handle_connect register
  handle_connect-CreatedMissing rc s h =
      grind (arith, ensure_cluster-CreatedMissing env, CreatedMissing-apply_manifest env)

-- What a session records once it waits for the agent: the phase Connecting, that the manifest is
-- applied, and a cluster for which Rancher gave a token.
pub record IsWaiting (r : RancherSession) (calls : List Call) : Type 0 where
  pub phase : r.status.phase ≡ connecting
  pub applied : r.status.manifest_applied ≡ true
  pub registered : has_token r.status.rancher_cluster_id calls ≡ true
