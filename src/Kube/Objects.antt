-- ===== src/Kube/Objects.antt =====
-- The Kubernetes objects that the controller builds and reads, with the fields that it sets or
-- reads. A map that is only read or built is an association list; the data of a ConfigMap is
-- written through, so there a nil map is told from an empty one.
use habitat_operator.Base.{ℤ, String, Bool, Option, List}

pub record OwnerReference : Type 0 where
  pub api_version : String
  pub kind : String
  pub name : String
  pub uid : String

abbrev pub Labels : Type 0
Labels = List (String × String)

pub record Meta : Type 0 where
  pub name : String
  pub namespace : String
  pub uid : String
  pub resource_version : String
  pub labels : Labels
  pub owners : List OwnerReference

-- An environment variable is passed on as it is. Its sources are pointers to small records.
pub record EnvVarSource : Type 0 where
  pub field_ref : Option (String × String)
  pub resource_field_ref : Option (String × String × String)
  pub config_map_key_ref : Option (String × String × Option Bool)
  pub secret_key_ref : Option (String × String × Option Bool)

pub record EnvVar : Type 0 where
  pub name : String
  pub value : String
  pub value_from : Option EnvVarSource

pub record Pod : Type 0 where
  pub meta : Meta
  pub phase : String
  pub pod_ip : String

pub record ConfigMap : Type 0 where
  pub meta : Meta
  pub contents : Option (List (String × String))

pub record KeyToPath : Type 0 where
  pub key : String
  pub path : String

pub data VolumeSource : Type 0 where
  from_config_map : String → List KeyToPath → VolumeSource
  from_secret : String → List KeyToPath → VolumeSource
  empty_dir : VolumeSource

pub record Volume : Type 0 where
  pub name : String
  pub source : VolumeSource

pub record VolumeMount : Type 0 where
  pub name : String
  pub mount_path : String
  pub read_only : Bool

pub record Container : Type 0 where
  pub name : String
  pub image : String
  pub command : List String
  pub args : List String
  pub mounts : List VolumeMount
  pub env : Option (List EnvVar)

pub record PodSpec : Type 0 where
  pub init_containers : List Container
  pub containers : List Container
  pub volumes : List Volume

pub record PodTemplate : Type 0 where
  pub labels : Labels
  pub spec : PodSpec

-- `Q` is the type of parsed quantities, which belongs to the Kubernetes library.
pub record VolumeClaim (Q : Type 0) : Type 0 where
  pub name : String
  pub namespace : String
  pub labels : Labels
  pub access_modes : List String
  pub storage_class_name : String
  pub storage : Q

pub record StatefulSetSpec (Q : Type 0) : Type 0 where
  pub selector : Labels
  pub replicas : ℤ
  pub pod_management_policy : String
  pub template : PodTemplate
  pub update_strategy : String
  pub volume_claim_templates : List (VolumeClaim Q)

pub record StatefulSet (Q : Type 0) : Type 0 where
  pub meta : Meta
  pub spec : StatefulSetSpec Q
