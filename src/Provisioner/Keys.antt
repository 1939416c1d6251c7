-- ===== src/Provisioner/Keys.antt =====
-- When the GEA's bootstrap makes an access key, and what it stores.
use losant_device.Prelude.{
  String, ◌⊕◌, ◌≡◌, refl, Bool, true, false, List, [], ◌∷◌, Assoc, lookup, arith, eq_refl,
}
use losant_device.Go.{Fallible, ok, err, is_empty}
use losant_device.Kube.{Kube, Secret}
use losant_device.Api.LosantSync.{LosantSync}
use losant_device.Losant.{Call, LosantClient, secret_created, secret_updated, key_created}
use losant_device.Losant.Request.{Env, HttpClient}
use losant_device.Losant.Client.{do_request, create_device_access_key, losant_client}
use losant_device.Provisioner.{
  Clock, credentials, credentials_ref, has_credentials, write_credentials, restart_deployment,
  bootstrap,
}

module _ {F : Type 0} where
  -- Losant was asked for a key, or a Secret was written.
  abbrev pub writes_credentials : List (Call F) → Bool
  writes_credentials [] = false
  writes_credentials (key_created _ _ ∷ calls) = true
  writes_credentials (secret_created _ _ ∷ calls) = true
  writes_credentials (secret_updated _ _ ∷ calls) = true
  writes_credentials (_ ∷ calls) = writes_credentials calls

  -- The data holds this device's ID, with the key that Losant returned last.
  abbrev pub IsLastKey : String → Assoc String → List (Call F) → Type 0
  IsLastKey id d [] = ⊥
  IsLastKey id d (key_created _ (ok (_, key, secret)) ∷ calls) = d ≡ credentials id key secret
  IsLastKey id d (key_created _ (err _) ∷ calls) = ⊥
  IsLastKey id d (_ ∷ calls) = IsLastKey id d calls

  -- Each Secret that was written holds it.
  abbrev AllKeyed : String → List (Call F) → Type 0
  AllKeyed id [] = Unit
  AllKeyed id (secret_created s _ ∷ calls) = IsLastKey id s.data_map calls × AllKeyed id calls
  AllKeyed id (secret_updated s _ ∷ calls) = IsLastKey id s.data_map calls × AllKeyed id calls
  AllKeyed id (_ ∷ calls) = AllKeyed id calls

  -- The Secret holds the key that Losant returned last, and a bootstrap for the device finds it
  -- complete.
  abbrev pub IsStored : String → Secret → List (Call F) → Type 0
  IsStored id s calls = IsLastKey id s.data_map calls × (has_credentials s id ≡ true)

  -- Each Secret that was written is one of these.
  abbrev pub AllStored : String → List (Call F) → Type 0
  AllStored id [] = Unit
  AllStored id (secret_created s _ ∷ calls) = IsStored id s calls × AllStored id calls
  AllStored id (secret_updated s _ ∷ calls) = IsStored id s calls × AllStored id calls
  AllStored id (_ ∷ calls) = AllStored id calls

-- The answer of CreateDeviceAccessKey is an error, or neither the key nor the secret is empty.
abbrev IsComplete : Fallible (String × String × String) → Type 0
IsComplete (err e) = Unit
IsComplete (ok (_, key, secret)) = (is_empty key ≡ false) × (is_empty secret ≡ false)

credentials-has_credentials :
    (s : Secret) (id key secret : String)
    → s.data_map ≡ credentials id key secret
    → is_empty id ≡ false
    → is_empty key ≡ false
    → is_empty secret ≡ false
    → has_credentials s id ≡ true
unfolding has_credentials lookup
credentials-has_credentials s id key secret e a b c = rw e (rw (a, b, c, eq_refl id) refl)

module _ {F : Type 0} where
  abbrev AllComplete : List (Call F) → Type 0
  AllComplete [] = Unit
  AllComplete (key_created _ made ∷ calls) = IsComplete made × AllComplete calls
  AllComplete (_ ∷ calls) = AllComplete calls

  last_key-has_credentials :
      (id : String) (s : Secret) (calls : List (Call F))
      → is_empty id ≡ false
      → IsLastKey id s.data_map calls
      → AllComplete calls
      → has_credentials s id ≡ true
  last_key-has_credentials id s [] named last whole = absurd last
  last_key-has_credentials id s (key_created j (ok (kid, key, secret)) ∷ calls) named last
        ((a, b), whole) =
      credentials-has_credentials s id key secret last named a b
  last_key-has_credentials id s (key_created j (err e) ∷ calls) named last whole = absurd last
  last_key-has_credentials id s (_ ∷ calls) named last whole =
      last_key-has_credentials id s calls named last whole

  all-AllStored :
      (id : String) (calls : List (Call F))
      → is_empty id ≡ false
      → AllKeyed id calls
      → AllComplete calls
      → AllStored id calls
  all-AllStored id [] named keyed whole = tt
  all-AllStored id (secret_created s u ∷ calls) named (last, keyed) whole = (
    (last, last_key-has_credentials id s calls named last whole),
    all-AllStored id calls named keyed whole,
  )
  all-AllStored id (secret_updated s u ∷ calls) named (last, keyed) whole = (
    (last, last_key-has_credentials id s calls named last whole),
    all-AllStored id calls named keyed whole,
  )
  all-AllStored id (key_created j made ∷ calls) named keyed (w, whole) =
      all-AllStored id calls named keyed whole
  all-AllStored id (_ ∷ calls) named keyed whole = all-AllStored id calls named keyed whole

module _ {W : Type 0} (F : Type 0) (kube : Kube W) (clock : Clock) (lc : LosantClient W)
    (ls : LosantSync) where
  -- A bootstrap that finds credentials for the cluster's device asks Losant for no key and writes
  -- no Secret.
  pub bootstrap-reuse :
      (id : String) (existing : Secret) (w : W)
      → (kube.get_secret (credentials_ref ls.spec.provisioning_secret_ref.namespace) w).0
        ≡ ok existing
      → has_credentials existing id ≡ true
      → writes_credentials {F = F}
          (bootstrap kube clock lc ls id (record { world = w; trace = [] })).1.trace
        ≡ false
  unfolding bootstrap restart_deployment
  bootstrap-reuse id existing w found have = grind arith

  -- A bootstrap that finds a Secret with the data that a bootstrap stores for the same device, an
  -- ID, a key and a secret none of which is empty, asks Losant for no key and writes no Secret.
  pub bootstrap-again :
      (id key secret : String) (existing : Secret) (w : W)
      → (kube.get_secret (credentials_ref ls.spec.provisioning_secret_ref.namespace) w).0
        ≡ ok existing
      → existing.data_map ≡ credentials id key secret
      → is_empty id ≡ false
      → is_empty key ≡ false
      → is_empty secret ≡ false
      → writes_credentials {F = F}
          (bootstrap kube clock lc ls id (record { world = w; trace = [] })).1.trace
        ≡ false
  bootstrap-again id key secret existing w found stored a b c =
      bootstrap-reuse id existing w found
        (credentials-has_credentials existing id key secret stored a b c)

  bootstrap-AllKeyed :
      (id : String) (w : W)
      → AllKeyed {F = F} id
          (bootstrap kube clock lc ls id (record { world = w; trace = [] })).1.trace
  unfolding bootstrap write_credentials restart_deployment
  bootstrap-AllKeyed id w = grind arith

  bootstrap-AllComplete :
      (id : String) (w : W)
      → ((app device name : String) (v : W)
          → IsComplete (lc.create_device_access_key app device name v).0)
      → AllComplete {F = F}
          (bootstrap kube clock lc ls id (record { world = w; trace = [] })).1.trace
  unfolding bootstrap write_credentials restart_deployment
  bootstrap-AllComplete id w complete =
      let ns = ls.spec.provisioning_secret_ref.namespace in
      let found = kube.get_secret (credentials_ref ns) w in
      let now = kube.now found.1 in
      let whole =
        complete ls.spec.application_id id
          ("losant-device-controller-" ⊕ (ls.spec.cluster_name ⊕ ("-" ⊕ clock.unix now.0))) now.1 in
      grind (arith, whole)

module _ {W : Type 0} (F : Type 0) (kube : Kube W) (clock : Clock) (losant : Env W) (c : HttpClient)
    (ls : LosantSync) where
  create_device_access_key-IsComplete :
      (app device name : String) (w : W)
      → IsComplete (create_device_access_key losant c app device name w).0
  unfolding create_device_access_key do_request
  create_device_access_key-IsComplete app device name w = ground arith

  -- With the HTTP client of Losant, and for a device's ID that is not empty, each Secret that a
  -- bootstrap writes holds this ID with the key and the secret that Losant returned just before,
  -- in data that the next bootstrap takes as complete.
  pub bootstrap-AllStored :
      (id : String) (w : W)
      → is_empty id ≡ false
      → AllStored {F = F} id
          (bootstrap kube clock
            (losant_client losant c)
            ls
            id
            (record { world = w; trace = [] })).1.trace
  bootstrap-AllStored id w named =
      let lc = losant_client losant c in
      let run = bootstrap kube clock lc ls id (record { world = w; trace = [] }) in
      all-AllStored {F = F} id run.1.trace named (bootstrap-AllKeyed F kube clock lc ls id w)
        (bootstrap-AllComplete F kube clock lc ls id w create_device_access_key-IsComplete)
