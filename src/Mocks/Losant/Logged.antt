-- ===== src/Mocks/Losant/Logged.antt =====
-- The Losant mock keeps the log of its calls since the last Reset.
use losant_device.Prelude.{◌+◌, ◌≡◌, refl, Option, none, some, List, [], ◌∷◌, ◌++◌, length, arith}
use mathlib.Core.List.{append-nil}
use losant_device.Go.{GoError, Fallible}
use losant_device.Http.{Action}
use losant_device.Mocks.{Mock, invoke}
use losant_device.Mocks.Losant.{MockClient, new_mock_client, set_error, call_count, reset}
use losant_device.Mocks.Losant.Methods.{
  ping, ensure_cluster_device, ensure_node_device, update_device_tags, get_device,
  create_device_access_key, patch_device_attributes, delete_device, release_workflow,
  get_edge_deployments,
}
use losant_device.Mocks.Losant.Log.{
  MockCall, MockHandler, MockOp, called, installed, errors_set, cleared, call_method, install,
  ping_by, ensure_cluster_device_by, ensure_node_device_by, update_device_tags_by, get_device_by,
  create_device_access_key_by, patch_device_attributes_by, delete_device_by, release_workflow_by,
  get_edge_deployments_by, run_op, run, log_op, log_of, collect, Records, as_ping,
  as_ensure_cluster_device, as_ensure_node_device, as_update_device_tags, as_get_device,
  as_create_device_access_key, as_patch_device_attributes, as_delete_device, as_release_workflow,
  as_get_edge_deployments,
}

collect-snoc :
    {A : Type 0} (f : MockCall → Option A) (log : List MockCall) (c : MockCall)
    → collect f (log ++ c ∷ []) ≡ collect f log ++ collect f (c ∷ [])
collect-snoc f [] c = refl
collect-snoc f (d ∷ log) c = ground (arith, collect-snoc f log c)

invoke-client :
    {M W A : Type 0} (fn : Option (Action W A)) (default : Fallible A) (m : M) (w : W)
    → (invoke fn default m w).1.client ≡ m
invoke-client none default m w = refl
invoke-client (some fn) default m w = refl

collected :
    (log : List MockCall)
    → length (collect as_ping log)
        + length (collect as_ensure_cluster_device log)
        + length (collect as_ensure_node_device log)
        + length (collect as_update_device_tags log)
        + length (collect as_get_device log)
        + length (collect as_create_device_access_key log)
        + length (collect as_patch_device_attributes log)
        + length (collect as_delete_device log)
        + length (collect as_release_workflow log)
        + length (collect as_get_edge_deployments log)
      ≡ length log
collected [] = refl
collected (c ∷ log) = ground (arith, collected log)

module _ {W : Type 0} where
  call_method-Records :
      (c : MockCall) (s : Mock (MockClient W) W) (log : List MockCall)
      → Records s.client log
      → Records (call_method c s).client (log ++ c ∷ [])
  unfolding ping ensure_cluster_device ensure_node_device update_device_tags get_device
      create_device_access_key patch_device_attributes delete_device release_workflow
      get_edge_deployments
  call_method-Records c s log h = grind (arith, collect-snoc, append-nil)

  reset-Records : (m : MockClient W) → Records (reset m) []
  unfolding reset
  reset-Records m = grind arith

  set_error-Records :
      (e : Option GoError) (m : MockClient W) (log : List MockCall)
      → Records m log
      → Records (set_error e m) log
  unfolding set_error
  set_error-Records e m log h = grind arith

  install-Records :
      (h : MockHandler W) (m : MockClient W) (log : List MockCall)
      → Records m log
      → Records (install h m) log
  unfolding install
  install-Records (ping_by f) m log r = grind arith
  install-Records (ensure_cluster_device_by f) m log r = grind arith
  install-Records (ensure_node_device_by f) m log r = grind arith
  install-Records (update_device_tags_by f) m log r = grind arith
  install-Records (get_device_by f) m log r = grind arith
  install-Records (create_device_access_key_by f) m log r = grind arith
  install-Records (patch_device_attributes_by f) m log r = grind arith
  install-Records (delete_device_by f) m log r = grind arith
  install-Records (release_workflow_by f) m log r = grind arith
  install-Records (get_edge_deployments_by f) m log r = grind arith

  run_op-Records :
      (op : MockOp W) (s : Mock (MockClient W) W) (log : List MockCall)
      → Records s.client log
      → Records (run_op op s).client (log_op op log)
  run_op-Records (called c) s log h = call_method-Records c s log h
  run_op-Records (installed f) s log h = install-Records f s.client log h
  run_op-Records (errors_set e) s log h = set_error-Records e s.client log h
  run_op-Records cleared s log h = reset-Records s.client

  run-Records :
      (ops : List (MockOp W)) (s : Mock (MockClient W) W) (log : List MockCall)
      → Records s.client log
      → Records (run ops s).client (log_of ops log)
  unfolding run
  run-Records [] s log h = h
  run-Records (op ∷ ops) s log h =
      run-Records ops (run_op op s) (log_op op log) (run_op-Records op s log h)

  new-Records : Records {W = W} new_mock_client []
  unfolding new_mock_client
  new-Records = grind arith

  call_count-Records :
      (m : MockClient W) (log : List MockCall) → Records m log → call_count m ≡ length log
  unfolding call_count
  call_count-Records m log h =
      rw
        (
          h.ping_logged, h.ensure_cluster_device_logged, h.ensure_node_device_logged,
          h.update_device_tags_logged, h.get_device_logged, h.create_device_access_key_logged,
          h.patch_device_attributes_logged, h.delete_device_logged, h.release_workflow_logged,
          h.get_edge_deployments_logged,
        )
        (collected log)

  -- The Losant mock implements a log. After any calls of its methods, of SetError and of Reset, and
  -- any assignments of handlers to its fields between them, from NewMockClient on, its records are
  -- the method calls since the last Reset, each with its arguments under its method and in order,
  -- and CallCount is their number.
  pub run-Records-count :
      (ops : List (MockOp W)) (w : W)
      → let s = run ops (record { client = new_mock_client; world = w }) in
        Records s.client (log_of ops []) × (call_count s.client ≡ length (log_of ops []))
  run-Records-count ops w =
      let logged =
        run-Records ops (record { client = new_mock_client; world = w }) [] new-Records in
      (logged, call_count-Records _ (log_of ops []) logged)
