-- ===== src/Session/Manifests.antt =====
-- applyManifest: the Rancher import manifest, fetched and applied document by document.
pub mod Keeps
pub mod Order
use losant_device.Prelude.{String, ◌⊕◌, List, [], ◌∷◌, lookup, get_or, if◌then◌else◌}
use losant_device.Prelude.Int.{ℤ, pos, ltb_ℤ}
use losant_device.Prelude.Decimal.{decimal}
use losant_device.Go.{Fallible, ok, err, new_error, wrap, is_empty}
use losant_device.Exec.{Exec, ◌>>=◌, ◌>>◌, call, read, value, pure}
use losant_device.Kube.{Manifest}
use losant_device.Api.RancherSession.{RancherSession}
use losant_device.Session.Env.{
  Env, Call, Fetched, bad_request, no_response, response, manifest_fetched, object_applied,
}

status_error : ℤ → Fallible String
status_error code = err (new_error ("fetch manifest: status " ⊕ decimal code))

-- the body of the manifest's response, or the error of the step that failed
unfoldable pub manifest_body : Fetched → Fallible String
unfolding status_error
manifest_body (bad_request e) = err (wrap "build manifest request" e)
manifest_body (no_response e) = err (wrap "fetch manifest" e)
manifest_body (response code (ok body)) =
    if ltb_ℤ code (pos 400) then ok body else status_error code
manifest_body (response code (err e)) =
    if ltb_ℤ code (pos 400) then err (wrap "read manifest body" e) else status_error code

module _ {W : Type 0} (env : Env W) where
  abbrev Body : Type 0 → Type 0
  Body A = Exec W Call (Fallible (Unit {0})) A

  -- the loop over the decoder; `Patch` with `client.Apply`
  unfoldable pub apply_documents : List (Fallible Manifest) → Body (Fallible (Unit {0}))
  apply_documents [] = pure (ok tt)
  apply_documents (err e ∷ more) = pure (err (wrap "decode manifest document" e))
  apply_documents (ok obj ∷ more) =
      let rest = apply_documents more in
      if is_empty obj.kind then rest else (do
        applied ← call (object_applied obj) (env.kube.apply_object obj)
        value applied λ e.
            pure (err (wrap ("apply " ⊕ (obj.kind ⊕ (" " ⊕ (obj.namespace ⊕ ("/" ⊕ obj.name))))) e))
        rest)

  unfoldable pub apply_manifest : RancherSession → String → Body (Fallible (Unit {0}))
  unfolding manifest_body
  apply_manifest rs manifest_url = do
    found ← read (env.kube.get_secret rs.spec.credentials_secret_ref)
    secret ← value found (λ e. pure (err (wrap "read credentials secret" e)))
    let ca_data = get_or "" (lookup "RANCHER_CA" secret.data_map)
    fetched ← call (manifest_fetched manifest_url) (env.fetch ca_data manifest_url)
    manifest_data ← value (manifest_body fetched) (λ e. pure (err e))
    apply_documents (env.decode manifest_data)
