-- ===== src/Sync/Deletion.antt =====
-- What happens before the finalizer of a deleted LosantSync is removed.
use losant_device.Prelude.{
  String, ◌≡◌, Bool, true, false, ◌||◌, List, [], ◌∷◌, Assoc, str_eq, eq_refl, arith,
}
use losant_device.Go.{Fallible, ok, err, is_empty}
use losant_device.Exec.{Sys, Flow, next, stop, panic, continue, Outcome, ◌>>◌}
use losant_device.Api.LosantSync.{LosantSync}
use losant_device.Losant.{Call, LosantClient, sync_updated, device_deleted}
use losant_device.Sync.{Env}
use losant_device.Sync.Devices.{
  delete_devices, delete_cluster_device, release_finalizer, delete_all, handle_deletion,
}

module _ {F : Type 0} where
  -- Losant confirmed the deletion of this device.
  abbrev pub deleted : String → List (Call F) → Bool
  deleted id [] = false
  deleted id (device_deleted j (ok _) ∷ calls) = str_eq j id || deleted id calls
  deleted id (_ ∷ calls) = deleted id calls

  abbrev pub AllDeleted : Assoc String → List (Call F) → Type 0
  AllDeleted [] calls = Unit
  AllDeleted ((_, id) ∷ devices) calls = (deleted id calls ≡ true) × AllDeleted devices calls

  -- Each update of the object comes after Losant has confirmed the deletion of every device of
  -- its nodes and of its cluster device, where it has one.
  abbrev pub DeletedFirst : LosantSync → List (Call F) → Type 0
  DeletedFirst ls [] = Unit
  DeletedFirst ls (sync_updated _ _ ∷ calls) =
      AllDeleted ls.status.node_devices calls
      × (is_empty ls.status.cluster_device_id || deleted ls.status.cluster_device_id calls ≡ true)
      × DeletedFirst ls calls
  DeletedFirst ls (_ ∷ calls) = DeletedFirst ls calls

  AllDeleted-call :
      (devices : Assoc String) (j : String) (r : Fallible (Unit {0})) (t : List (Call F))
      → AllDeleted devices t
      → AllDeleted devices (device_deleted j r ∷ t)
  AllDeleted-call [] j r t h = tt
  AllDeleted-call ((_, id) ∷ devices) j (ok u) t h =
      (ground (arith, h.0), AllDeleted-call devices j (ok u) t h.1)
  AllDeleted-call ((_, id) ∷ devices) j (err e) t h = (h.0, AllDeleted-call devices j (err e) t h.1)

  -- What a loop of deletions gives, by its flow.
  abbrev Deletes : {A R : Type 0} → Assoc String → Flow R A → List (Call F) → Type 0
  Deletes devices (next _) t = AllDeleted devices t
  Deletes devices _ t = Unit

module _ {W F : Type 0} (env : Env W F) (lc : LosantClient W) (ls : LosantSync) where
  delete_devices-DeletedFirst :
      (devices : Assoc String) (s : Sys W (Call F))
      → DeletedFirst ls s.trace
      → DeletedFirst ls (delete_devices env lc ls devices s).1.trace
  unfolding delete_devices
  delete_devices-DeletedFirst [] s h = h
  delete_devices-DeletedFirst ((_, id) ∷ devices) s h =
      grind (arith, delete_devices-DeletedFirst devices)

  deleted-delete_devices :
      (devices : Assoc String) (id : String) (s : Sys W (Call F))
      → deleted id s.trace ≡ true
      → deleted id (delete_devices env lc ls devices s).1.trace ≡ true
  unfolding delete_devices
  deleted-delete_devices [] id s h = h
  deleted-delete_devices ((_, j) ∷ devices) id s h =
      grind (arith, deleted-delete_devices devices id)

  delete_devices-Deletes :
      (devices : Assoc String) (s : Sys W (Call F))
      → Deletes devices
          (delete_devices env lc ls devices s).0
          (delete_devices env lc ls devices s).1.trace
  unfolding delete_devices
  delete_devices-Deletes [] s = tt
  delete_devices-Deletes ((_, id) ∷ devices) s =
      grind (arith, delete_devices-Deletes devices, deleted-delete_devices devices id, eq_refl)

  after_devices-DeletedFirst :
      (flow : Flow Outcome (Unit {0})) (s : Sys W (Call F))
      → Deletes ls.status.node_devices flow s.trace
      → DeletedFirst ls s.trace
      → DeletedFirst ls
          (continue flow
            (λ _. delete_cluster_device env lc ls >> release_finalizer env ls)
            s).1.trace
  unfolding delete_cluster_device release_finalizer
  after_devices-DeletedFirst (next _) s d h =
      grind (arith, AllDeleted-call ls.status.node_devices, eq_refl ls.status.cluster_device_id)
  after_devices-DeletedFirst (stop r) s d h = h
  after_devices-DeletedFirst panic s d h = h

  delete_all-DeletedFirst :
      (s : Sys W (Call F))
      → DeletedFirst ls s.trace
      → DeletedFirst ls (delete_all env lc ls s).1.trace
  unfolding delete_all
  delete_all-DeletedFirst s h =
      let m = delete_devices env lc ls ls.status.node_devices s in
      after_devices-DeletedFirst m.0 m.1 (delete_devices-Deletes ls.status.node_devices s)
        (delete_devices-DeletedFirst ls.status.node_devices s h)

-- Whatever Kubernetes and Losant answer, the deletion of a LosantSync updates the object, which
-- removes its finalizer, only after Losant has confirmed the deletion of the device of each of
-- its nodes and of its cluster device, where its status names one.
pub handle_deletion-DeletedFirst :
    {W F : Type 0} (env : Env W F) (ls : LosantSync) (w : W)
    → DeletedFirst ls (handle_deletion env ls (record { world = w; trace = [] })).1.trace
unfolding handle_deletion
handle_deletion-DeletedFirst env ls w = grind (arith, delete_all-DeletedFirst env)
