-- ===== src/Session/Lifecycle/Lives.antt =====
-- The whole life of a session.
use losant_device.Prelude.{ℕ, String, ◌≡◌, false, none, List, []}
use losant_device.Prelude.Int.{pos}
use losant_device.Rancher.{RancherClient}
use losant_device.Api.RancherSession.{RancherSession, unset}
use losant_device.Session.Env.{Env}
use losant_device.Trigger
use losant_device.Trigger.{new_session}
use losant_device.Api.LosantSync.{LosantSync}
use losant_device.Session.Lifecycle.{
  Cooperates, session_after, second_session, third_session, last_session,
}

module _ {W : Type 0} (env : Env W) (api : RancherClient W) (id : String)
    (c : Cooperates env api id) where
  -- A session as it is created: not deleted, with no finalizer and no phase, and not suspended.
  record IsFresh (n : ℕ) (rs : RancherSession) : Type 0 where
    live : rs.deletion_timestamp ≡ none
    bare : rs.finalizers ≡ []
    active : rs.spec.suspend ≡ false
    timed : rs.spec.ttl_seconds ≡ pos n
    phase : rs.status.phase ≡ unset

  module _ (n : ℕ) (rs : RancherSession) (fresh : IsFresh n rs) (w1 w2 w3 w4 : W) where
    abbrev rs1 : RancherSession
    rs1 = session_after env rs w1

    abbrev rs2 : RancherSession
    rs2 = second_session env rs w1 w2

    abbrev rs3 : RancherSession
    rs3 = third_session env rs w1 w2 w3

    abbrev rs4 : RancherSession
    rs4 = last_session env rs w1 w2 w3 w4

  module _ (server : Trigger.Server W) (body : String) (ls : LosantSync) (items : List LosantSync)
      (n : ℕ) (w0 w1 w2 w3 w4 : W) where
    abbrev requested : RancherSession
    requested = new_session server ls.name (pos n)
