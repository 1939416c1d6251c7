-- ===== src/Sync/Typed.antt =====
-- The attributes that the reports carry, and those that the devices declare.
use losant_device.Prelude.{String, ◌≡◌, ◌⊎◌, List, Assoc, map}
use losant_device.Losant.{Value, number, text, boolean, float, StatePayload, DeviceAttribute}
use losant_device.Losant.Devices.{cluster_device_attributes, node_device_attributes}

-- Losant's name of a value's type.
abbrev pub data_type_of : {F : Type 0} → Value F → String
data_type_of (number n) = "number"
data_type_of (text t) = "string"
data_type_of (boolean b) = "boolean"
data_type_of (float x) = "number"

abbrev typed : {F : Type 0} → String × Value F → String × String
typed (name, v) = (name, data_type_of v)

abbrev declaration : DeviceAttribute → String × String
declaration a = (a.name, a.data_type)

-- The values have the declared names, in the declared order, and are of the declared types.
abbrev pub Declared : {F : Type 0} → List DeviceAttribute → Assoc (Value F) → Type 0
Declared attrs values = map typed values ≡ map declaration attrs

-- The attributes of a cluster's device, or those of a node's.
abbrev pub IsDeclared : {F : Type 0} → StatePayload F → Type 0
IsDeclared p =
    Declared cluster_device_attributes p.attributes ⊎ Declared node_device_attributes p.attributes
