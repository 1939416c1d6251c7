-- ===== src/Examples/Manager.antt =====
-- The start-up with a certificate for each server, where the metrics server's address is taken.
use losant_device.Prelude.{ℕ, ◌+◌, ◌⊕◌, refl, []}
use losant_device.Go.{Fallible, ok, err}
use losant_device.Exec.{returned}
use losant_device.Manager.{Flags, default_flags, Request, start, parsed, Env}
use losant_device.Manager.Main.{main}
use losant_device.Manager.Stages.{Follows, plan, stages}
use losant_device.Manager.Order.{main-Follows}
use losant_device.Manager.Tls.{AllOwn, main-AllOwn}
use losant_device.Examples.{refused}

abbrev flags : Flags
flags = record default_flags { webhook_cert_path = "/webhook"; metrics_cert_path = "/metrics" }

abbrev answer : Request → Fallible (Unit {0})
answer start = err refused
answer _ = ok tt

abbrev env : Env ℕ
env = record {
  parse_flags = λ defaults. parsed flags;
  perform = λ q w. (answer q, w + 1);
  join = λ dir name. dir ⊕ ("/" ⊕ name);
  health_store = 7;
  grow = λ n. n;
}

main-Follows_example :
    let (flow, after) = main env (record { world = 0; trace = [] }) in
    Follows (plan env flags) [] (returned {Q = ℕ} flow) (stages after.trace)
main-Follows_example = main-Follows env flags 0 refl

main-AllOwn_example : AllOwn env flags (main env (record { world = 0; trace = [] })).1.trace
main-AllOwn_example = main-AllOwn env flags 0 refl refl
