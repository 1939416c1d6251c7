-- ===== src/Sync/Gone.antt =====
-- The deletion of a LosantSync with Losant's HTTP client.
use losant_device.Prelude.{String, ◌≡◌, refl, true, List, [], ◌∷◌, Assoc, arith}
use losant_device.Prelude.Int.{ℤ, pos, ltb_ℤ}
use losant_device.Go.{ok}
use losant_device.Exec.{Sys, Outcome, returned, next, finished, empty_result}
use losant_device.Http.{Reply, received}
use losant_device.Kube.{Secret}
use losant_device.Api.LosantSync.{LosantSync}
use losant_device.Losant.{Call, LosantClient, sync_updated}
use losant_device.Losant
use losant_device.Losant.Request.{HttpClient, device_url, read_reply}
use losant_device.Losant.Client.{do_request, delete_device, forgive_404, losant_client}
use losant_device.Losant.NotFound.{not_found, delete_request, delete_device-forgives}
use losant_device.Sync.{Env, device_finalizer}
use losant_device.Sync.Devices.{
  losant_client_of, delete_devices, delete_cluster_device, release_finalizer, delete_all,
  handle_deletion,
}

-- Losant has deleted the device, or has none of that ID.
pub data IsGone : Reply → Type 0 where
  accepted_delete :
      (code : ℤ) (body : String) → ltb_ℤ code (pos 400) ≡ true → IsGone (received code (ok body))
  no_device : (body : String) → IsGone (received (pos 404) (ok body))

-- The last call has stored the object without its finalizer.
abbrev pub IsReleased : {W F : Type 0} → Env W F → LosantSync → List (Call F) → Type 0
IsReleased env ls (sync_updated r (ok _) ∷ calls) =
    r ≡ record ls { finalizers = env.meta.remove_finalizer device_finalizer ls.finalizers }
IsReleased env ls _ = ⊥

delete_device-gone :
    {W : Type 0} (losant : Losant.Request.Env W) (c : HttpClient) (app id : String) (w : W)
    (reply : Reply)
    → IsGone reply
    → (losant.send (delete_request c app id) w).0 ≡ reply
    → (delete_device losant c app id w).0 ≡ ok tt
unfolding delete_device do_request read_reply forgive_404
delete_device-gone losant c app id w reply (accepted_delete code body below) answered =
    rw (answered, below) refl
delete_device-gone losant c app id w reply (no_device body) answered =
    delete_device-forgives losant c app id w (rw answered (not_found body))

module _ {W F : Type 0} (env : Env W F) (lc : LosantClient W) (ls : LosantSync)
    (gone : (id : String) (w : W) → (lc.delete_device ls.spec.application_id id w).0 ≡ ok tt) where
  delete_devices-goes_on :
      (devices : Assoc String) (s : Sys W (Call F))
      → (delete_devices env lc ls devices s).0 ≡ next tt
  unfolding delete_devices
  delete_devices-goes_on [] s = refl
  delete_devices-goes_on ((_, id) ∷ devices) s =
      rw (gone id s.world) (delete_devices-goes_on devices _)

  delete_cluster_device-goes_on :
      (s : Sys W (Call F)) → (delete_cluster_device env lc ls s).0 ≡ next tt
  unfolding delete_cluster_device
  delete_cluster_device-goes_on s = ground (arith, gone ls.status.cluster_device_id s.world)

  release_finalizer-IsReleased :
      (s : Sys W (Call F))
      → ((r : LosantSync) (v : W) → (env.kube.update_losant_sync r v).0 ≡ ok tt)
      → (returned {Q = Outcome} (release_finalizer env ls s).0 ≡ next (finished empty_result))
        × IsReleased env ls (release_finalizer env ls s).1.trace
  unfolding release_finalizer
  release_finalizer-IsReleased s writes = (rw writes refl, rw writes refl)

  delete_all-IsReleased :
      (s : Sys W (Call F))
      → ((r : LosantSync) (v : W) → (env.kube.update_losant_sync r v).0 ≡ ok tt)
      → (returned {Q = Outcome} (delete_all env lc ls s).0 ≡ next (finished empty_result))
        × IsReleased env ls (delete_all env lc ls s).1.trace
  unfolding delete_all
  delete_all-IsReleased s writes =
      rw (delete_devices-goes_on, delete_cluster_device-goes_on)
        (release_finalizer-IsReleased _ writes)

module _ {W F : Type 0} (env : Env W F) (losant : Losant.Request.Env W) (c : HttpClient)
    (ls : LosantSync) where
  -- The deletion of a LosantSync ends in one reconcile, with its finalizer removed and no other
  -- reconcile asked for, also where its devices are gone from Losant already: when each DELETE of
  -- the HTTP client is answered with a status below 400 or with 404, the provisioning secret can
  -- be read and gives this client, and Kubernetes accepts the update.
  pub handle_deletion-IsReleased :
      (secret : Secret) (reply : String → W → Reply) (w : W)
      → env.meta.contains_finalizer device_finalizer ls.finalizers ≡ true
      → (env.kube.get_secret ls.spec.provisioning_secret_ref w).0 ≡ ok secret
      → losant_client_of env secret ls ≡ ok (losant_client losant c)
      → ((id : String) (v : W) → IsGone (reply id v))
      → ((id : String) (v : W)
          → (losant.send (delete_request c ls.spec.application_id id) v).0 ≡ reply id v)
      → ((r : LosantSync) (v : W) → (env.kube.update_losant_sync r v).0 ≡ ok tt)
      → let m = handle_deletion env ls (record { world = w; trace = [] }) in
        (returned {Q = Outcome} m.0 ≡ next (finished empty_result)) × IsReleased env ls m.1.trace
  unfolding handle_deletion
  handle_deletion-IsReleased secret reply w finalized read built gone answered writes =
      let deleted = λ (id : String) (v : W).
        delete_device-gone losant c ls.spec.application_id id v (reply id v) (gone id v)
          (answered id v) in
      rw (finalized, read, built)
        (delete_all-IsReleased env (losant_client losant c) ls deleted _ writes)
