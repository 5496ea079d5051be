-- ===== src/Kube/Objects.antt =====
-- The Kubernetes objects that the program reads, with the fields that it looks at. Their types are
-- those of k8s.io/api; labels and annotations are maps, and a nil map reads like an empty one.
use maintenance_orchestrator.Api.Spec.{LabelSelector}
use maintenance_orchestrator.Prelude.{ℕ, ℤ, Bool, List, Option, String}

pub record NodeCondition : Type 0 where
  pub type : String
  pub status : String

pub record Taint : Type 0 where
  pub key : String

-- An amount of a resource, in billionths: the resolution of a resource.Quantity. A quantity that is
-- not set counts as 0.
abbrev pub Quantity : Type 0
Quantity = ℤ

pub record Node : Type 0 where
  pub name : String
  pub labels : List (String × String)
  pub annotations : List (String × String)
  pub unschedulable : Bool
  pub taints : List Taint
  pub provider_id : String
  pub conditions : List NodeCondition
  pub kubelet_version : String
  pub allocatable_cpu : Quantity
  pub allocatable_memory : Quantity

-- The controlling owner of an object, as metav1.GetControllerOf finds it.
pub record OwnerReference : Type 0 where
  pub kind : String
  pub name : String
  pub uid : String

pub record Volume : Type 0 where
  pub empty_dir : Bool
  pub host_path : Bool

-- The requests of a container.
pub record Container : Type 0 where
  pub cpu : Quantity
  pub memory : Quantity

pub record Pod : Type 0 where
  pub namespace : String
  pub name : String
  pub node_name : String
  pub containers : List Container
  pub labels : List (String × String)
  pub annotations : List (String × String)
  pub controller : Option OwnerReference
  pub volumes : List Volume
  pub phase : String
  pub deletion_timestamp : Option ℕ
  pub deletion_grace_period_seconds : Option ℤ

pub record GroupVersionKind : Type 0 where
  pub group : String
  pub version : String
  pub kind : String

-- A Machine of OpenShift or of Cluster API, with the fields read from the unstructured object.
pub record Machine : Type 0 where
  pub namespace : String
  pub name : String
  pub provider_id : String
  pub node_ref : String

-- A ReplicaSet, a Deployment or a StatefulSet.
pub record ReplicatedObject : Type 0 where
  pub namespace : String
  pub name : String
  pub uid : String
  pub replicas : Option ℤ
  pub controller : Option OwnerReference

pub record PodDisruptionBudget : Type 0 where
  pub namespace : String
  pub name : String
  pub selector : Option LabelSelector
  pub disruptions_allowed : ℤ
