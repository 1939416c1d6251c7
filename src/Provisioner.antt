-- ===== src/Provisioner.antt =====
-- internal/provisioner/bootstrap.go: the credentials of the GEA, and the restart of its Deployment.
pub mod Keys
use losant_device.Prelude.{
  String, ◌⊕◌, Bool, true, false, not, ◌&&◌, List, [], ◌∷◌, Assoc, lookup, insert, get_or, str_eq,
  if◌then◌else◌,
}
use losant_device.Go.{
  GoError, Fallible, ok, err, Time, wrap, is_empty, is_not_found, is_already_exists,
}
use losant_device.Exec.{Exec, ◌>>=◌, ◌>>◌, call, read, value, pure, scope}
use losant_device.Kube.{Kube, Secret, Deployment}
use losant_device.Api.{SecretRef}
use losant_device.Api.LosantSync.{LosantSync}
use losant_device.Losant.{
  LosantClient, Call, secret_created, secret_updated, deployment_patched, key_created,
}

-- The texts of an instant: %d of its Unix seconds, and RFC 3339.
pub record Clock : Type 0 where
  pub unix : Time → String
  pub rfc3339 : Time → String

abbrev pub gea_credentials_secret_name : String
gea_credentials_secret_name = "losant-gea-credentials"

abbrev pub credentials_ref : String → SecretRef
credentials_ref ns = record { name = gea_credentials_secret_name; namespace = ns }

abbrev pub credentials_path : String → String
credentials_path ns = ns ⊕ ("/" ⊕ gea_credentials_secret_name)

-- The data of a credentials Secret.
abbrev pub credentials : String → String → String → Assoc String
credentials device_id key secret =
    ("DEVICE_ID", device_id) ∷ ("ACCESS_KEY", key) ∷ ("ACCESS_SECRET", secret) ∷ []

abbrev pub credentials_secret : String → Assoc String → Secret
credentials_secret ns d = record {
  name = gea_credentials_secret_name;
  namespace = ns;
  data_map = d;
}

-- string(d[k])
abbrev pub entry : String → Secret → String
entry k s = get_or "" (lookup k s.data_map)

-- The Secret holds credentials for this device.
unfoldable pub has_credentials : Secret → String → Bool
has_credentials s cluster_device_id =
    not (is_empty (entry "DEVICE_ID" s))
    && not (is_empty (entry "ACCESS_KEY" s))
    && not (is_empty (entry "ACCESS_SECRET" s))
    && str_eq (entry "DEVICE_ID" s) cluster_device_id

-- A function that returns an `error`.
abbrev pub Action : Type 0 → Type 0 → Type 0 → Type 0
Action W F A = Exec W (Call F) (Fallible (Unit {0})) A

-- createErr != nil && !IsAlreadyExists(createErr)
abbrev placeholder_error : String → Fallible (Unit {0}) → Fallible (Unit {0})
placeholder_error ns (ok u) = ok tt
placeholder_error ns (err e) =
    if is_already_exists e
    then ok tt
    else err (wrap ("create placeholder " ⊕ credentials_path ns) e)

-- `needsCredential`, or the error of the read
abbrev pub needs_credential : String → String → Fallible Secret → Fallible Bool
needs_credential ns cluster_device_id (ok existing) =
    ok (not (has_credentials existing cluster_device_id))
needs_credential ns cluster_device_id (err e) =
    if is_not_found e then ok true else err (wrap ("read " ⊕ credentials_path ns) e)

module _ {W F : Type 0} (kube : Kube W) where
  abbrev create_placeholder : String → Fallible Secret → Action W F (Fallible (Unit {0}))
  create_placeholder ns (ok existing) = pure (ok tt)
  create_placeholder ns (err e) =
      if is_not_found e
      then (do
        let placeholder = credentials_secret ns (credentials "" "" "")
        created ← call (secret_created placeholder) (kube.create_secret placeholder)
        pure (placeholder_error ns created))
      else pure (err (wrap ("read " ⊕ credentials_path ns) e))

  -- EnsureCredentialPlaceholder
  unfoldable pub ensure_credential_placeholder : String → Action W F (Fallible (Unit {0}))
  ensure_credential_placeholder ns = do
    found ← read (kube.get_secret (credentials_ref ns))
    create_placeholder ns found

  module _ (clock : Clock) where
    -- restartDeployment
    unfoldable pub restart_deployment : String → String → Action W F (Fallible (Unit {0}))
    restart_deployment ns name = do
      found ← read (kube.get_deployment (record { name = name; namespace = ns }))
      dep ← value found (λ e. pure (err (wrap ("get GEA Deployment " ⊕ (ns ⊕ ("/" ⊕ name))) e)))
      now ← read kube.now
      let patched = record dep {
        annotations =
            insert "kubectl.kubernetes.io/restartedAt" (clock.rfc3339 now) dep.annotations;
      }
      sent ← call (deployment_patched patched) (kube.patch_deployment patched)
      value sent (λ e. pure (err (wrap ("patch GEA Deployment " ⊕ (ns ⊕ ("/" ⊕ name))) e)))
      pure (ok tt)

    -- the write of the new credentials: `Create` if the Secret was not found, else `Update`
    abbrev store_credentials : String → Fallible Secret → Assoc String → Action W F (Unit {0})
    store_credentials ns (ok existing) d = do
      let patched = record existing { data_map = d }
      written ← call (secret_updated patched) (kube.update_secret patched)
      value written (λ e. pure (err (wrap ("update " ⊕ credentials_path ns) e)))
    store_credentials ns (err _) d = do
      let cred = credentials_secret ns d
      written ← call (secret_created cred) (kube.create_secret cred)
      value written (λ e. pure (err (wrap ("create " ⊕ credentials_path ns) e)))

    -- a new access key, stored
    unfoldable pub write_credentials :
        LosantClient W → LosantSync → String → Fallible Secret → Action W F (Unit {0})
    write_credentials lc ls cluster_device_id existing = do
      now ← read kube.now
      let key_name = "losant-device-controller-" ⊕ (ls.spec.cluster_name ⊕ ("-" ⊕ clock.unix now))
      made ←
          call (key_created cluster_device_id)
            (lc.create_device_access_key ls.spec.application_id cluster_device_id key_name)
      (_, key, secret) ← value made (λ e. pure (err (wrap "create device access key" e)))
      store_credentials ls.spec.provisioning_secret_ref.namespace existing
          (credentials cluster_device_id key secret)

    -- Bootstrap
    unfoldable pub bootstrap :
        LosantClient W → LosantSync → String → Action W F (Fallible (Unit {0}))
    bootstrap lc ls cluster_device_id = do
      let ns = ls.spec.provisioning_secret_ref.namespace
      existing ← read (kube.get_secret (credentials_ref ns))
      needed ← value (needs_credential ns cluster_device_id existing) (λ e. pure (err e))
      if needed then write_credentials lc ls cluster_device_id existing else pure tt
      if is_empty ls.spec.gea.deployment_ref
          then pure (ok tt)
          else restart_deployment ns ls.spec.gea.deployment_ref
