-- ===== src/Lib.antt =====
-- losant-device: the operator that registers a cluster and its nodes as Losant devices, reports
-- their health to the Gateway Edge Agent (GEA), and opens time-limited Rancher sessions.
--
-- Three controllers and their helpers, in Go over the Kubernetes API:
--   * api/v1alpha1: the resources LosantSync and RancherSession (Api.antt and its children);
--   * internal/controller/ranchersession_controller.go: a RancherSession is connected, watched
--     until its TTL and disconnected (Session.antt: Status, Manifests, Connect, Disconnect,
--     Reconcile, one per group of handlers);
--   * internal/monitor: the collectors of nodes, pods, events and claims, the scores, and the
--     store of the last snapshot (Monitor.antt: Nodes, Pods, Counts, Score, Store, Locking);
--   * internal/controller/healthwatcher_controller.go: recomputes the snapshot and replaces the
--     store's (Watcher.antt);
--   * internal/controller/losantsync_controller.go: ensures the devices in Losant, reports the
--     snapshot to the GEA and keeps the edge workflows released (Sync.antt: Schedule, Workflows,
--     Devices, Report, Steps, Reconcile);
--   * internal/trigger/server.go: the in-cluster endpoint that creates and deletes RancherSessions
--     for the GEA's workflows (Trigger.antt), and the goroutine that listens (Trigger/Serving.antt);
--   * internal/provisioner/bootstrap.go: makes and stores the GEA's access key (Provisioner.antt);
--   * internal/losant/client.go: the HTTP client of Losant's REST API (Losant.antt: Devices for
--     the names, attributes and tags of devices, Request, Client);
--   * internal/rancher/client.go: the HTTP client of Rancher's API (Rancher.antt: Client);
--   * internal/gea/client.go: the HTTP client of the GEA (Losant/Gea.antt);
--   * the files mock_client.go beside these three: the clients of the tests (Mocks.antt: Losant,
--     Rancher, Gea);
--   * cmd/main.go: the flags, the TLS options of the two servers and the start-up, with the
--     registrations of the controllers (Manager.antt: Main).
-- The controllers call Losant, Rancher and the GEA through interfaces, which the HTTP clients and
-- the mocks implement: LosantClient and GeaClient in Losant.antt, RancherClient in Rancher.antt.
-- The LosantSync controller reads the store that the watcher writes, and calls the provisioner.
--
-- How it is modelled. A function that calls other systems is state passing with early return
-- (Exec.antt): the state is an abstract world, which the calls act on, with the trace of the
-- calls made, the newest first. A call appears in the trace with its result; a read of
-- Kubernetes or of the clock does not. `next` is a function's value, `stop` an early return,
-- `panic` a panic. The API server, the Rancher and Losant clients, the GEA, the clock, the YAML
-- decoder, the cron parser and float64 arithmetic are records of functions, which the
-- definitions take as arguments (Kube.antt, Rancher.antt, Losant.antt and the record Env of each
-- controller); nothing is assumed of them but what a theorem states.
--
-- The HTTP clients (Http.antt) send a request over a network, which is a parameter and answers
-- with an error or with a status code and a body; what json.Unmarshal makes of a body is a
-- parameter too. strings.Contains, strings.TrimRight and url.QueryEscape are defined
-- (Prelude/Texts.antt), the latter over the characters' UTF-8 bytes. Registry.antt holds an
-- abstract view of a service that keeps things by name, Losant/Registry.antt and
-- Rancher/Registry.antt what the two APIs are documented to do with it, in Rancher's case for a
-- name that stands encoded in the query, as the code does not encode it, and
-- Mocks/Losant/Log.antt an abstract view of the mock, a log. A mock's mutex makes one step of
-- each of its operations. Session/Polling.antt follows a session over several reconciles: each
-- begins when the time that the one before asked for is over, with the status stored last.
-- Session/Lifecycle.antt follows one from the trigger server's request to its end, over four
-- reconciles that begin in any worlds.
--
-- Server.Start and its goroutine are a step relation (Trigger/Serving.antt): a run is any order of
-- the code's steps, the end of the context, the return of ListenAndServe, and the starts and the
-- ends of the requests that are in progress, for which srv.Shutdown waits without a limit. So are
-- the goroutines that share the health store (Monitor/Locking.antt): a step is one read or write of
-- the store's fields, a copied entry, or a call of its RWMutex, which is taken as documented; a map
-- that was given to Update is not written to any more. Monitor/Store/Shared.antt has the memory of
-- the store's maps, which Update shares with the watcher and Snapshot copies; elsewhere the store is
-- its content (Monitor/Store.antt). The slices that cmd/main.go appends to are views of shared
-- arrays (Go/Slices.antt), and the capacity that append gives to a new array is a parameter; Go's
-- runtime gives 1 to an array made for one pointer.
--
-- Go's int64 seconds times nanoseconds wrap around (Prelude/Int.antt: int64). Counts of listed
-- objects are natural numbers. Instants and durations are integers of nanoseconds; that
-- time.Sub saturates and that int holds every count is not modelled. No loop of the code needs
-- fuel: each runs over a list. The number of reconciles that Session/Polling.antt follows is an
-- argument, and a theorem says how many are enough. A map is an association list, and `range`
-- visits it in the list's order.
--
-- Not modelled: logging and its set-up; the timeouts and the TLS settings of the HTTP clients; the
-- generated deep copies (api/v1alpha1/zz_generated.deepcopy.go) and the groups' registration
-- (api/v1alpha1/groupversion_info.go), of which init only sees whether it succeeds; the charts,
-- manifests and scripts, which are not Go code.
pub mod Prelude
pub mod Go
pub mod Http
pub mod Registry
pub mod Exec
pub mod Api
pub mod Kube
pub mod Rancher
pub mod Session
pub mod Monitor
pub mod Watcher
pub mod Losant
pub mod Provisioner
pub mod Sync
pub mod Trigger
pub mod Mocks
pub mod Manager
pub mod Examples
