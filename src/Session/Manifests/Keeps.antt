-- ===== src/Session/Manifests/Keeps.antt =====
-- What applying a manifest leaves alone in the trace.
use losant_device.Prelude.{String, List, [], ◌∷◌, arith}
use losant_device.Go.{Fallible, ok, err}
use losant_device.Exec.{Sys}
use losant_device.Kube.{Manifest}
use losant_device.Api.RancherSession.{RancherSession}
use losant_device.Session.Env.{Env, Call, Fetched, manifest_fetched, object_applied}
use losant_device.Session.Manifests.{apply_documents, apply_manifest}

module _ {W : Type 0} (env : Env W) where
  -- the state after one object was sent
  abbrev pub after_apply : Manifest → Sys W Call → Sys W Call
  after_apply obj s = record {
    world = (env.kube.apply_object obj s.world).1;
    trace = object_applied obj (env.kube.apply_object obj s.world).0 ∷ s.trace;
  }

module _ {W : Type 0} (env : Env W) (P : List Call → Type 0)
    (keep_applied : (obj : Manifest) (r : Fallible (Unit {0})) (calls : List Call)
      → P calls
      → P (object_applied obj r ∷ calls)) where
  apply_documents_keeps :
      (docs : List (Fallible Manifest)) (s : Sys W Call)
      → P s.trace
      → P (apply_documents env docs s).1.trace
  unfolding apply_documents
  apply_documents_keeps [] s h = h
  apply_documents_keeps (err e ∷ docs) s h = h
  apply_documents_keeps (ok obj ∷ docs) s h =
      let sent = keep_applied obj (env.kube.apply_object obj s.world).0 s.trace h in
      ground (
        arith,
        sent,
        apply_documents_keeps docs s h,
        apply_documents_keeps docs (after_apply env obj s) sent,
      )

  -- A predicate that survives the fetch and each object sent survives the whole.
  pub apply_manifest_keeps :
      ((url : String) (f : Fetched) (calls : List Call)
        → P calls
        → P (manifest_fetched url f ∷ calls))
      → (rs : RancherSession) (url : String) (s : Sys W Call) → P s.trace
      → P (apply_manifest env rs url s).1.trace
  unfolding apply_manifest
  apply_manifest_keeps keep_fetched rs url s h = grind (arith, keep_fetched, apply_documents_keeps)
