-- ===== src/Kube/Objects.antt =====
-- The Kubernetes objects that the operator reads and builds, with the fields that its source names.
-- A field that it leaves out of a literal is left out here, or has Go's zero value where a theorem
-- speaks of it. A pointer is an `Option`.
use aperture_ai.Prelude.{String, Bool, Option, none, List, ℤ, ℕ}
use aperture_ai.Prelude.Dict.{Dict, Labels}
use aperture_ai.Kube.{Kube}

-- types.NamespacedName
pub record NamespacedName : Type 0 where
  pub name : String
  pub namespace : String

pub record EnvVar : Type 0 where
  pub name : String
  pub value : String

pub record ContainerPort : Type 0 where
  pub name : String
  pub container_port : ℕ
  pub protocol : String

pub record VolumeMount : Type 0 where
  pub name : String
  pub mount_path : String

-- corev1.VolumeSource: the one of its pointers that is set.
pub data VolumeSource : Type 0 where
  persistent_volume_claim : String → VolumeSource
  empty_dir : VolumeSource

pub record Volume : Type 0 where
  pub name : String
  pub source : VolumeSource

-- A probe with an HTTPGet handler.
pub record Probe : Type 0 where
  pub path : String
  pub port : ℕ
  pub initial_delay_seconds : ℕ
  pub period_seconds : ℕ
  pub timeout_seconds : ℕ
  pub failure_threshold : ℕ

pub record SecurityContext : Type 0 where
  pub read_only_root_filesystem : Option Bool
  pub drop : List String

pub record PodSecurityContext : Type 0 where
  pub run_as_non_root : Option Bool
  pub run_as_user : Option ℤ
  pub fs_group : Option ℤ

pub record ServicePort : Type 0 where
  pub name : String
  pub port : ℕ
  pub target_port : ℕ
  pub protocol : String

pub record ServiceSpec : Type 0 where
  pub service_type : String
  pub selector : Labels
  pub ports : List ServicePort

pub record DeploymentCondition : Type 0 where
  pub condition_type : String
  pub status : String
  pub message : String

pub record DeploymentStatus : Type 0 where
  pub ready_replicas : ℤ
  pub unavailable_replicas : ℤ
  pub conditions : List DeploymentCondition

pub record ObjectMeta (K : Kube) : Type 0 where
  pub name : String
  pub namespace : String
  pub labels : Labels
  pub deletion_timestamp : Option K.Time
  pub finalizers : List String
  pub owner_references : List K.OwnerReference

pub record ResourceRequirements (K : Kube) : Type 0 where
  pub limits : Dict K.Quantity
  pub requests : Dict K.Quantity

pub record Container (K : Kube) : Type 0 where
  pub name : String
  pub image : String
  pub command : List String
  pub ports : List ContainerPort
  pub env : List EnvVar
  pub resources : ResourceRequirements K
  pub security_context : Option SecurityContext
  pub volume_mounts : List VolumeMount
  pub readiness_probe : Option Probe
  pub liveness_probe : Option Probe

pub record PodSpec (K : Kube) : Type 0 where
  pub security_context : Option PodSecurityContext
  pub containers : List (Container K)
  pub init_containers : List (Container K)
  pub volumes : List Volume
  pub node_selector : Labels
  pub tolerations : List K.Toleration
  pub priority_class_name : String

pub record PodTemplateSpec (K : Kube) : Type 0 where
  pub labels : Labels
  pub spec : PodSpec K

pub record DeploymentSpec (K : Kube) : Type 0 where
  pub replicas : Option ℤ
  pub match_labels : Labels
  pub template : PodTemplateSpec K

pub record Deployment (K : Kube) : Type 0 where
  pub metadata : ObjectMeta K
  pub spec : DeploymentSpec K
  pub status : DeploymentStatus

pub record Service (K : Kube) : Type 0 where
  pub metadata : ObjectMeta K
  pub spec : ServiceSpec

-- client.ObjectKeyFromObject
abbrev pub object_key : {K : Kube} → ObjectMeta K → NamespacedName
object_key m = record { name = m.name; namespace = m.namespace }

-- The metadata of a composite literal that gives the name, the namespace and the labels.
abbrev pub new_meta : (K : Kube) → String → String → Labels → ObjectMeta K
new_meta K name namespace labels = record {
  name = name;
  namespace = namespace;
  labels = labels;
  deletion_timestamp = none;
  finalizers = List.[];
  owner_references = List.[];
}
