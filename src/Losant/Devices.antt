-- ===== src/Losant/Devices.antt =====
-- internal/losant/client.go: the names, attributes and tags of the devices.
use losant_device.Prelude.{String, ◌⊕◌, List, [], ◌∷◌, ◌++◌, if◌then◌else◌}
use losant_device.Go.{is_empty}
use losant_device.Api.LosantSync.{LosantSyncSpec}
use losant_device.Losant.{Tag, DeviceAttribute}

abbrev number_attribute : String → DeviceAttribute
number_attribute name = record { name = name; data_type = "number" }

abbrev string_attribute : String → DeviceAttribute
string_attribute name = record { name = name; data_type = "string" }

abbrev boolean_attribute : String → DeviceAttribute
boolean_attribute name = record { name = name; data_type = "boolean" }

-- clusterDeviceAttributes
unfoldable pub cluster_device_attributes : List DeviceAttribute
cluster_device_attributes =
    number_attribute "health_score"
    ∷ string_attribute "health_status"
    ∷ number_attribute "total_nodes"
    ∷ number_attribute "ready_nodes"
    ∷ number_attribute "unhealthy_nodes"
    ∷ number_attribute "total_pods"
    ∷ number_attribute "running_pods"
    ∷ number_attribute "failed_pods"
    ∷ number_attribute "pending_pods"
    ∷ number_attribute "crashloop_pods"
    ∷ number_attribute "degraded_pvcs"
    ∷ boolean_attribute "coredns_healthy"
    ∷ number_attribute "event_warnings"
    ∷ []

-- nodeDeviceAttributes
unfoldable pub node_device_attributes : List DeviceAttribute
node_device_attributes =
    number_attribute "health_score"
    ∷ string_attribute "health_status"
    ∷ boolean_attribute "ready"
    ∷ boolean_attribute "memory_pressure"
    ∷ boolean_attribute "disk_pressure"
    ∷ boolean_attribute "pid_pressure"
    ∷ number_attribute "pod_count"
    ∷ number_attribute "not_ready_pods"
    ∷ number_attribute "crashloop_pods"
    ∷ number_attribute "cpu_request_pct"
    ∷ number_attribute "mem_request_pct"
    ∷ []

-- clusterDeviceName
unfoldable pub cluster_device_name : String → String
cluster_device_name cluster = "k8s-cluster-" ⊕ cluster

-- nodeDeviceName
unfoldable pub node_device_name : String → String → String
node_device_name cluster node = "k8s-node-" ⊕ (cluster ⊕ ("-" ⊕ node))

abbrev tag : String → String → Tag
tag key value = record { key = key; value = value }

-- if value != "" { tags = append(tags, …) }
abbrev optional_tag : String → String → List Tag
optional_tag key value = if is_empty value then [] else tag key value ∷ []

-- tagsFromSpec
unfoldable pub tags_from_spec : LosantSyncSpec → List Tag
tags_from_spec spec =
    (tag "clusterName" spec.cluster_name ∷ tag "region" spec.region ∷ [])
    ++ optional_tag "rancherURL" spec.rancher_url
    ++ optional_tag "manager" spec.tags.manager
    ++ optional_tag "uid" spec.tags.uid
    ++ optional_tag "gps" spec.tags.gps

-- append(tags, Tag{Key: "nodeName", Value: nodeName})
unfoldable pub node_tags : LosantSyncSpec → String → List Tag
node_tags spec node = tags_from_spec spec ++ tag "nodeName" node ∷ []
