-- ===== src/Types.antt =====
-- pkg/apis/habitat/v1beta1/types.go: the Habitat resource, as users write it. A pointer field is an
-- `Option`; a slice is an `Option (List A)`, since `reflect.DeepEqual` tells a nil slice from an
-- empty one. The JSON and type meta data carry no behaviour of this program and are left out.
pub mod Equality
use habitat_operator.Base.{ℤ, String, Option, none, some, List, []}
use habitat_operator.Kube.Objects.{Meta, EnvVar}

abbrev pub Slice {ℓ} : Type ℓ → Type ℓ
Slice A = Option (List A)

-- What a `range` loop or an `append` sees of a slice.
abbrev pub elements {ℓ} : {A : Type ℓ} → Option (List A) → List A
elements none = []
elements (some xs) = xs

abbrev pub habitat_label : String
habitat_label = "habitat"

abbrev pub habitat_name_label : String
habitat_name_label = "habitat-name"

abbrev pub topology_label : String
topology_label = "topology"

abbrev pub habitat_topology_label : String
habitat_topology_label = "operator.habitat.sh/topology"

-- `type Topology string`; its method `String` is the identity.
abbrev pub Topology : Type 0
Topology = String

abbrev pub topology_standalone : Topology
topology_standalone = "standalone"

abbrev pub topology_leader : Topology
topology_leader = "leader"

abbrev pub habitat_kind : String
habitat_kind = "Habitat"

-- register.go: `SchemeGroupVersion.String()`
abbrev pub api_version : String
api_version = "habitat.sh/v1beta1"

pub record Bind : Type 0 where
  pub name : String
  pub service : String
  pub group : String

pub record PersistentStorage : Type 0 where
  pub size : String
  pub mount_path : String
  pub storage_class_name : String

pub record Service : Type 0 where
  pub group : Option String
  pub topology : Topology
  pub config_secret_name : Option String
  pub ring_secret_name : Option String
  pub files_secret_name : Option String
  pub bind : Slice Bind
  pub name : String
  pub channel : Option String

pub record V1beta2 : Type 0 where
  pub count : ℤ
  pub image : String
  pub service : Service
  pub env : Slice EnvVar
  pub persistent_storage : Option PersistentStorage

pub record HabitatStatus : Type 0 where
  pub state : String
  pub message : String

-- The field `spec` is `Spec.V1beta2`.
pub record Habitat : Type 0 where
  pub meta : Meta
  pub spec : Option V1beta2
  pub status : HabitatStatus
  pub custom_version : Option String
