-- ===== src/Session/Cleanup.antt =====
-- What happens before the session's finalizer is removed, and where a disconnect goes wrong.
use losant_device.Prelude.{
  String, ◌≡◌, Bool, true, false, ◌||◌, List, [], ◌∷◌, arith, str_eq, eq_refl,
}
use losant_device.Go.{ok, err, is_not_found, is_empty}
use losant_device.Exec.{Sys, Flow, next}
use losant_device.Api.RancherSession.{RancherSession, disconnecting}
use losant_device.Session.Env.{
  Env, Call, Handle, nil_interface, nil_pointer, client, session_updated, status_updated,
  cluster_deleted, namespace_deleted,
}
use losant_device.Session.Disconnect.{delete_cluster, finish_cleanup, run_cleanup, disconnect_with}

-- The namespace was deleted, or was not there.
abbrev pub namespace_gone : List Call → Bool
namespace_gone [] = false
namespace_gone (namespace_deleted _ (ok _) ∷ calls) = true
namespace_gone (namespace_deleted _ (err e) ∷ calls) = is_not_found e || namespace_gone calls
namespace_gone (_ ∷ calls) = namespace_gone calls

-- Rancher confirmed the deletion of this cluster.
abbrev pub cluster_gone : String → List Call → Bool
cluster_gone id [] = false
cluster_gone id (cluster_deleted j (ok _) ∷ calls) = str_eq j id || cluster_gone id calls
cluster_gone id (_ ∷ calls) = cluster_gone id calls

-- The cluster is released: there is no client for Rancher, the session has no cluster, or
-- Rancher deleted it.
abbrev pub cluster_released : {W : Type 0} → String → Handle W → List Call → Bool
cluster_released id nil_interface calls = true
cluster_released id _ calls = is_empty id || cluster_gone id calls

-- Each update of the session comes after the namespace is gone and the cluster is released.
abbrev pub CleanedFirst : {W : Type 0} → String → Handle W → List Call → Type 0
CleanedFirst id rc [] = Unit
CleanedFirst id rc (session_updated _ _ ∷ calls) =
    (namespace_gone calls ≡ true) × (cluster_released id rc calls ≡ true) × CleanedFirst id rc calls
CleanedFirst id rc (_ ∷ calls) = CleanedFirst id rc calls

abbrev goes_on : {A R : Type 0} → Flow R A → Bool
goes_on (next _) = true
goes_on _ = false

module _ {W : Type 0} (env : Env W) (rs : RancherSession) (rc : Handle W) (s : Sys W Call) where
  delete_cluster-CleanedFirst :
      CleanedFirst rs.status.rancher_cluster_id rc s.trace
      → CleanedFirst rs.status.rancher_cluster_id rc (delete_cluster env rs rc s).1.trace
  unfolding delete_cluster
  delete_cluster-CleanedFirst h = grind arith

  delete_cluster-released :
      goes_on (delete_cluster env rs rc s).0 ≡ true
      → cluster_released rs.status.rancher_cluster_id rc (delete_cluster env rs rc s).1.trace ≡ true
  unfolding delete_cluster
  delete_cluster-released h = ground (arith, eq_refl rs.status.rancher_cluster_id)

  finish_cleanup-CleanedFirst :
      cluster_released rs.status.rancher_cluster_id rc s.trace ≡ true
      → CleanedFirst rs.status.rancher_cluster_id rc s.trace
      → CleanedFirst rs.status.rancher_cluster_id rc (finish_cleanup env rs s).1.trace
  unfolding finish_cleanup
  finish_cleanup-CleanedFirst released h = grind arith

-- The session with its phase set to Disconnecting, as runCleanup sends it first.
abbrev pub marked : RancherSession → RancherSession
marked rs = record rs { status = record rs.status { phase = disconnecting } }

-- The state after that session was sent.
abbrev pub after_mark : {W : Type 0} → Env W → RancherSession → Sys W Call → Sys W Call
after_mark env rs s = record {
  world = (env.kube.update_rancher_session_status (marked rs) s.world).1;
  trace =
      status_updated (marked rs) (env.kube.update_rancher_session_status (marked rs) s.world).0
      ∷ s.trace;
}

module _ {W : Type 0} (env : Env W) (rs : RancherSession) where
  run_cleanup-CleanedFirst :
      (rc : Handle W) (s : Sys W Call)
      → CleanedFirst rs.status.rancher_cluster_id rc s.trace
      → CleanedFirst rs.status.rancher_cluster_id rc (run_cleanup env rs rc s).1.trace
  unfolding run_cleanup
  run_cleanup-CleanedFirst rc s h =
      let s1 = after_mark env rs s in
      ground (
        arith,
        delete_cluster-CleanedFirst env (marked rs) rc s1 h,
        delete_cluster-released env (marked rs) rc s1,
        finish_cleanup-CleanedFirst env (marked rs) rc (delete_cluster env (marked rs) rc s1).1,
      )

  -- On deletion the session is updated, which removes its finalizer, only after the namespace is
  -- gone and, where there is a client for Rancher and the session has a cluster, after Rancher
  -- has confirmed the cluster's deletion.
  pub disconnect_with-CleanedFirst :
      (rc : Handle W) (w : W)
      → CleanedFirst rs.status.rancher_cluster_id rc
          (disconnect_with env rs rc (record { world = w; trace = [] })).1.trace
  unfolding disconnect_with
  disconnect_with-CleanedFirst nil_interface w = grind arith
  disconnect_with-CleanedFirst nil_pointer w = grind (arith, run_cleanup-CleanedFirst)
  disconnect_with-CleanedFirst (client api) w = grind (arith, run_cleanup-CleanedFirst)
