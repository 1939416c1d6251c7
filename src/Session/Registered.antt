-- ===== src/Session/Registered.antt =====
-- The cluster of a session in Rancher, with the HTTP client.
use losant_device.Prelude.{String, ◌≡◌, sym, ◌∙◌, ap, true, false, Option, some, inl, inr}
use losant_device.Prelude.Texts.{query_escape}
use losant_device.Go.{Fallible-cases}
use losant_device.Exec.{Sys, next, stopped-next, continue-stopped-next}
use losant_device.Registry.{Ensures, kept, added}
use losant_device.Rancher
use losant_device.Rancher.Client.{HttpClient, find_cluster, create_cluster, rancher_client}
use losant_device.Rancher.Registry.{
  Serves, find_cluster-shows, find_cluster-keeps, create_cluster-registers, create_cluster-keeps,
}
use losant_device.Api.RancherSession.{RancherSession}
use losant_device.Session.Env.{Env, Call}
use losant_device.Session.Connect.{display_name, ensure_cluster}

module _ {W : Type 0} (env : Env W) (rancher : Rancher.Client.Env W) (c : HttpClient)
    (rs : RancherSession) where
  -- The search and the creation with which handleConnect starts implement the registry's operation:
  -- where the session's display name is one that a query's encoding does not change, Rancher's API
  -- serves this name as documented, and a cluster's ID comes out of them, then Rancher has this ID
  -- under that name; it is the one that the name had before or, where it had none, that of a
  -- cluster made now. The cluster of no other name changes.
  pub ensure_cluster-Ensures :
      (registry : String → W → Option String) (s : Sys W Call) (id : String)
      → query_escape (display_name env rs) ≡ display_name env rs
      → Serves rancher c registry (display_name env rs)
      → (ensure_cluster env rs (rancher_client rancher c) s).0 ≡ next id
      → Ensures
          (display_name env rs)
          (λ n. registry n s.world)
          (λ n. registry n (ensure_cluster env rs (rancher_client rancher c) s).1.world)
          id
  unfolding ensure_cluster
  ensure_cluster-Ensures registry s id plain serves e =
      let name = display_name env rs in
      let found = find_cluster rancher c name s.world in
      elim (Fallible-cases found.0) [
        | inl ((found_cluster, true), f) ↦
            let e1 = rw f at e in
            let same : found_cluster ≡ id = cc in
            rw f (
              kept
                (sym (
                    find_cluster-shows rancher c registry name plain serves s.world
                      (found_cluster, true) f)
                  ∙ ap some same)
                (λ other. find_cluster-keeps rancher c registry name plain serves other s.world))
        | inl ((found_cluster, false), f) ↦
            elim (Fallible-cases (create_cluster rancher c name found.1).0) [
              | inl (made, k) ↦
                  let e1 = rw (f, k) at e in
                  let same : made ≡ id = cc in
                  let absent = sym (
                    find_cluster-shows rancher c registry name plain serves s.world
                      (found_cluster, false) f) in
                  let keeps = λ (other : String).
                    find_cluster-keeps rancher c registry name plain serves other s.world in
                  rw (f, k)
                    (added absent
                      (create_cluster-registers rancher c registry name plain serves found.1 made
                          (keeps name ∙ absent) k
                        ∙ ap some same)
                      (λ other apart.
                        create_cluster-keeps rancher c registry name plain serves other found.1
                          apart
                        ∙ keeps other))
              | inr (failure, k) ↦ let e1 = rw (f, k) at e in elim (stopped-next _ id e1) [ ]
            ]
        | inr (failure, f) ↦ let e1 = rw f at e in elim (continue-stopped-next _ _ _ id e1) [ ]
      ]
