-- ===== src/Monitor/Nodes.antt =====
-- node_collector.go. Quantities and float64 are parameters: the operations that requestPct uses.
use losant_device.Prelude.{
  String, ◌≡◌, refl, Bool, false, Bool-cases, inl, inr, List, [], ◌∷◌, Assoc, lookup, get_or,
  str_eq, eq_iff, if◌then◌else◌,
}
use losant_device.Prelude.Int.{pos}
use losant_device.Monitor.{NodeHealth}
use losant_device.Monitor.Score.{compute_node_health_score, health_status_from_score}

-- resource.Quantity `Q` with AsApproximateFloat64, and float64 `F` with the arithmetic and the
-- comparisons of requestPct.
pub record Floats (Q F : Type 0) : Type 0 where
  pub zero_quantity : Q
  pub as_approximate_float64 : Q → F
  pub zero : F
  pub is_zero : F → Bool
  pub is_negative : F → Bool
  -- (1 - alloc/cap) * 100
  pub percentage : F → F → F

pub record NodeCondition : Type 0 where
  pub type_name : String
  pub status : String

-- corev1.Node in the fields read.
pub record Node (Q : Type 0) : Type 0 where
  pub name : String
  pub conditions : List NodeCondition
  pub allocatable : Assoc Q
  pub capacity : Assoc Q

module _ {Q F : Type 0} (floats : Floats Q F) where
  unfoldable pub request_pct : Q → Q → F
  request_pct allocatable capacity =
      let cap = floats.as_approximate_float64 capacity in
      let pct = floats.percentage (floats.as_approximate_float64 allocatable) cap in
      if floats.is_zero cap
      then floats.zero
      else if floats.is_negative pct
      then floats.zero
      else pct

  unfoldable pub new_health : String → NodeHealth F
  new_health name = record {
    name = name;
    ready = false;
    memory_pressure = false;
    disk_pressure = false;
    pid_pressure = false;
    cpu_request_pct = floats.zero;
    mem_request_pct = floats.zero;
    pod_count = 0;
    not_ready_pods = 0;
    crash_loop_pods = 0;
    health_score = pos 0;
    health_status = "";
  }

module _ {F : Type 0} where
  -- the switch on a condition's type
  unfoldable pub set_flag : NodeCondition → NodeHealth F → NodeHealth F
  set_flag cond h =
      let flag = str_eq cond.status "True" in
      if str_eq cond.type_name "Ready"
      then record h { ready = flag }
      else if str_eq cond.type_name "MemoryPressure"
      then record h { memory_pressure = flag }
      else if str_eq cond.type_name "DiskPressure"
      then record h { disk_pressure = flag }
      else if str_eq cond.type_name "PIDPressure"
      then record h { pid_pressure = flag }
      else h

  -- the loop over the conditions
  unfoldable pub set_flags : List NodeCondition → NodeHealth F → NodeHealth F
  unfolding set_flag
  set_flags [] h = h
  set_flags (cond ∷ more) h = set_flags more (set_flag cond h)

  -- h.HealthScore and h.HealthStatus, computed from the other fields
  unfoldable pub rescore : NodeHealth F → NodeHealth F
  rescore h =
      let score = compute_node_health_score h in
      record h { health_score = score; health_status = health_status_from_score score }

module _ {Q F : Type 0} (floats : Floats Q F) where
  -- m[name] of a resource list
  abbrev quantity : String → Assoc Q → Q
  quantity name m = get_or floats.zero_quantity (lookup name m)

  unfoldable pub collect_node_health : Node Q → NodeHealth F
  unfolding rescore new_health
  collect_node_health node =
      let h = set_flags node.conditions (new_health floats node.name) in
      rescore (record h {
        cpu_request_pct =
            request_pct floats (quantity "cpu" node.allocatable) (quantity "cpu" node.capacity);
        mem_request_pct =
            request_pct floats (quantity "memory" node.allocatable)
              (quantity "memory" node.capacity);
      })

-- Whether the last condition of a type, if there is one, has status True.
abbrev pub last_is_true : String → List NodeCondition → Bool → Bool
last_is_true t [] b = b
last_is_true t (cond ∷ more) b =
    last_is_true t more (if str_eq cond.type_name t then str_eq cond.status "True" else b)

module _ {F : Type 0} where
  -- the four flags of a record, as the conditions leave them
  abbrev pub Flags : List NodeCondition → NodeHealth F → NodeHealth F → Type 0
  Flags conds h h' =
      (h'.ready ≡ last_is_true "Ready" conds h.ready)
      × (h'.memory_pressure ≡ last_is_true "MemoryPressure" conds h.memory_pressure)
      × (h'.disk_pressure ≡ last_is_true "DiskPressure" conds h.disk_pressure)
      × (h'.pid_pressure ≡ last_is_true "PIDPressure" conds h.pid_pressure)

  set_flag-Flags : (cond : NodeCondition) (h : NodeHealth F) → Flags (cond ∷ []) h (set_flag cond h)
  unfolding set_flag
  set_flag-Flags cond h = elim (Bool-cases (str_eq cond.type_name "Ready")) [
    | inl e ↦ rw ((eq_iff _ _).0 e) (refl, refl, refl, refl)
    | inr r ↦ elim (Bool-cases (str_eq cond.type_name "MemoryPressure")) [
      | inl e ↦ rw ((eq_iff _ _).0 e) (refl, refl, refl, refl)
      | inr m ↦ elim (Bool-cases (str_eq cond.type_name "DiskPressure")) [
        | inl e ↦ rw ((eq_iff _ _).0 e) (refl, refl, refl, refl)
        | inr d ↦ elim (Bool-cases (str_eq cond.type_name "PIDPressure")) [
          | inl e ↦ rw ((eq_iff _ _).0 e) (refl, refl, refl, refl)
          | inr p ↦ rw (r, m, d, p) (refl, refl, refl, refl)
        ]
      ]
    ]
  ]

  set_flags-Flags :
      (conds : List NodeCondition) (h : NodeHealth F) → Flags conds h (set_flags conds h)
  unfolding set_flags
  set_flags-Flags [] h = (refl, refl, refl, refl)
  set_flags-Flags (cond ∷ more) h =
      let (a, b, c, d) = set_flag-Flags cond h in
      let (p, q, r, s) = set_flags-Flags more (set_flag cond h) in
      (rw a at p, rw b at q, rw c at r, rw d at s)

-- Each of the four flags of a collected node says whether the node's last condition of that type
-- has status True (false if it has none), and the score and the status are those of the flags.
pub collect_node_health-flags :
    {Q F : Type 0} (floats : Floats Q F) (node : Node Q)
    → let h = collect_node_health floats node in
      (h.ready ≡ last_is_true "Ready" node.conditions false)
      × (h.memory_pressure ≡ last_is_true "MemoryPressure" node.conditions false)
      × (h.disk_pressure ≡ last_is_true "DiskPressure" node.conditions false)
      × (h.pid_pressure ≡ last_is_true "PIDPressure" node.conditions false)
      × (h.health_score ≡ compute_node_health_score h)
      × (h.health_status ≡ health_status_from_score h.health_score)
unfolding collect_node_health compute_node_health_score
collect_node_health-flags floats node =
    let (a, b, c, d) = set_flags-Flags node.conditions (new_health floats node.name) in
    (a, b, c, d, refl, refl)
