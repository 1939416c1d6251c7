-- ===== src/Sync/Watched.antt =====
-- The reports of a sync after a reconcile of the health watcher.
use losant_device.Prelude.{String, ◌≡◌, ◌⊎◌, [], ◌∷◌, Assoc}
use losant_device.Losant.{StatePayload}
use losant_device.Monitor.{NodeHealth, ClusterHealth}
use losant_device.Watcher
use losant_device.Sync.Report.{cluster_payload, node_payload}

-- One of the nodes has this health.
abbrev pub Listed : {F : Type 0} → NodeHealth F → Assoc (NodeHealth F) → Type 0
Listed h [] = ⊥
Listed h ((_, g) ∷ nodes) = (h ≡ g) ⊎ Listed h nodes

-- The report of the cluster or of one of the nodes, under some device's ID.
abbrev pub IsOf : {F : Type 0} → ClusterHealth → Assoc (NodeHealth F) → StatePayload F → Type 0
IsOf {F = F} cluster nodes p =
    ((id : String) × (p ≡ cluster_payload id cluster))
    ⊎ ((id : String) × (h : NodeHealth F) × Listed h nodes × (p ≡ node_payload id h))
