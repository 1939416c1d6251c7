-- ===== src/Examples/Trigger.antt =====
-- The trigger server at a request to connect with no TTL, and a run of Start whose listener
-- cannot bind its port, and one whose context ends during a request.
use losant_device.Prelude.{ℕ, ◌+◌, ◌*◌, ◌≤◌, true, refl, none, some, [], ◌∷◌, arith}
use losant_device.Prelude.Int.{pos}
use losant_device.Go.{ok, GoError, new_error, wrap}
use losant_device.Api.LosantSync.{active}
use losant_device.Api.RancherSession.{unset}
use losant_device.Trigger.{Server, handle_rancher}
use losant_device.Trigger.Answers.{Answers, handle_rancher-Answers}
use losant_device.Trigger.Serving.{
  failure, done, returned, Serving, serving, after_listen, received, shutting_down, send, stop,
  receive, moves, cancel, listen_ends, request_starts, Reach, start, later,
}
use losant_device.Trigger.Serving.Outcome.{Reports, HasRoom, Reach-Reports}
use losant_device.Trigger.Serving.Ends.{GoesOn, Reach-GoesOn}
use losant_device.Examples.{session_in, sync_in, demo_kube}

abbrev server : Server ℕ
server = record {
  kube = demo_kube (session_in unset none) (sync_in active none);
  namespace = "losant";
  decode = λ body. ok (record { action = "connect"; ttl_seconds = pos 0 });
  quote = λ s. s;
}

handle_rancher-Answers_example :
    let (flow, after) = handle_rancher server "POST" "{}" (record { world = 0; trace = [] }) in
    Answers flow after.trace
handle_rancher-Answers_example = handle_rancher-Answers server "POST" "{}" 0

abbrev in_use : GoError
in_use = new_error "listen tcp :9090: bind: address already in use"

abbrev queued : Serving
queued = record serving { listener = done (failure in_use); errors = in_use ∷ [] }

abbrev ended : Serving
ended = record queued { errors = []; starter = returned (some (wrap "trigger server" in_use)) }

queued-Reach : Reach 2 queued
unfolding after_listen
queued-Reach =
    later 1 (later 0 start (listen_ends (failure in_use) refl))
      (moves (send (failure in_use) in_use refl (omega arith)))

ended-Reach : Reach 3 ended
unfolding received
ended-Reach = later 2 queued-Reach (moves (receive in_use [] refl refl))

Reach-Reports_example : Reports ended ended.starter × HasRoom ended ended.listener
Reach-Reports_example = Reach-Reports ended-Reach

-- A context that ends during a request.
abbrev stopping : Serving
stopping = record serving { cancelled = true; starter = shutting_down; active = 1; requests = 1 }

stopping-Reach : Reach 3 stopping
stopping-Reach =
    later 2 (later 1 (later 0 start (request_starts refl)) (cancel refl)) (moves (stop refl refl))

Reach-GoesOn_example : (3 ≤ 5 + 2 * 1) × GoesOn stopping
Reach-GoesOn_example = Reach-GoesOn stopping-Reach refl
