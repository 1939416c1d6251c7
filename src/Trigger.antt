-- ===== src/Trigger.antt =====
-- internal/trigger/server.go: the handlers of POST /rancher. Each returns the status code and the
-- text that it writes to the response.
pub mod Answers
pub mod Serving
use losant_device.Prelude.{
  ℕ, String, ◌⊕◌, Bool, true, false, List, [], ◌∷◌, Option, none, str_eq, if◌then◌else◌,
}
use losant_device.Prelude.Int.{ℤ, pos, ltb_ℤ}
use losant_device.Go.{Fallible, ok, err, new_error, wrap, is_not_found, is_already_exists}
use losant_device.Exec.{Exec, ◌>>=◌, ◌>>◌, call, read, value, pure, scope}
use losant_device.Kube.{Kube}
use losant_device.Api.LosantSync.{LosantSync}
use losant_device.Api.RancherSession.{RancherSession, unset}

pub record RancherRequest : Type 0 where
  pub action : String
  pub ttl_seconds : ℤ

pub record Response : Type 0 where
  pub code : ℕ
  pub text : String

-- A write of a session, with its result.
pub data Call : Type 0 where
  session_created : RancherSession → Fallible (Unit {0}) → Call
  session_deleted : RancherSession → Fallible (Unit {0}) → Call

-- `decode` is the JSON decoder over the request's body, `quote` fmt's %q.
pub record Server (W : Type 0) : Type 0 where
  pub kube : Kube W
  pub namespace : String
  pub decode : String → Fallible RancherRequest
  pub quote : String → String

abbrev pub respond : ℕ → String → Response
respond code text = record { code = code; text = text }

abbrev pub accepted : Response
accepted = respond 202 ""

module _ {W : Type 0} (server : Server W) where
  -- the session of handleConnect, with an hour in place of a TTL that is not positive
  unfoldable pub new_session : String → ℤ → RancherSession
  new_session name ttl_seconds = record {
    name = name;
    namespace = server.namespace;
    generation = 0;
    deletion_timestamp = none;
    finalizers = [];
    spec = record {
      credentials_secret_ref = record {
        name = "rancher-credentials";
        namespace = server.namespace;
      };
      cluster_display_name = "";
      ttl_seconds = if ltb_ℤ (pos 0) ttl_seconds then ttl_seconds else pos 3600;
      suspend = false;
    };
    status = record {
      phase = unset;
      rancher_cluster_id = "";
      manifest_applied = false;
      connected_at = none;
      expires_at = none;
      conditions = [];
      last_transition_message = "";
    };
  }

  -- handleConnect
  unfoldable pub handle_connect : String → ℤ → Exec W Call Response Response
  unfolding new_session
  handle_connect name ttl_seconds = do
    let rs = new_session name ttl_seconds
    created ← call (session_created rs) (server.kube.create_rancher_session rs)
    value created λ e.
        if is_already_exists e
        then pure (respond 409 "RancherSession already exists")
        else pure (respond 500 "failed to create session")
    pure accepted

  -- handleDisconnect
  unfoldable pub handle_disconnect : String → Exec W Call Response Response
  handle_disconnect name = do
    found ←
        read
          (server.kube.get_rancher_session (record { name = name; namespace = server.namespace }))
    rs ← value found λ e.
        if is_not_found e
        then pure (respond 404 "RancherSession not found")
        else pure (respond 500 "failed to look up session")
    deleted ← call (session_deleted rs) (server.kube.delete_rancher_session rs)
    value deleted λ e.
        if is_not_found e
        then pure (respond 404 "RancherSession not found")
        else pure (respond 500 "failed to delete session")
    pure accepted

  -- losantSyncName
  unfoldable pub losant_sync_name : Fallible (List LosantSync) → Fallible String
  losant_sync_name (err e) = err (wrap "list LosantSync" e)
  losant_sync_name (ok []) = err (new_error "no LosantSync CR found")
  losant_sync_name (ok (ls ∷ items)) = ok ls.name

  -- the `switch` on the action
  unfoldable pub act : RancherRequest → String → Exec W Call Response Response
  act req name =
      if str_eq req.action "connect"
      then handle_connect name req.ttl_seconds
      else if str_eq req.action "disconnect"
      then handle_disconnect name
      else pure (
          respond 400
            ("unknown action " ⊕ (server.quote req.action ⊕ "; expected connect or disconnect")))

  -- handleRancher, for a method and a body
  unfoldable pub handle_rancher : String → String → Exec W Call Response Response
  handle_rancher method body =
      if str_eq method "POST"
      then (do
        req ← value (server.decode body) (λ e. pure (respond 400 "invalid request body"))
        listed ← read server.kube.list_losant_syncs
        name ←
            value (losant_sync_name listed)
              λ e. pure (respond 500 "internal error: could not determine session name")
        act req name)
      else pure (respond 405 "method not allowed")
