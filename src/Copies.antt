-- ===== src/Copies.antt =====
-- pkg/apis/habitat/v1beta1/zz_generated.deepcopy.go, on a heap. A pointer or a slice that is not nil
-- is an address; a slice's address holds its elements. What the Kubernetes types are in memory, and
-- how they are copied, is a parameter. Type meta data are left out, as in Types.antt.
pub mod Grows
pub mod Copier
pub mod Views
pub mod Structs
pub mod Habitats
pub mod Correct
use habitat_operator.Base.{ℤ, ℕ, String, Option, none, some, List}
use habitat_operator.Types.{Bind, PersistentStorage, HabitatStatus, Topology}
use habitat_operator.Memory.{Cmd, pure, ◌>>=◌}
use habitat_operator.Copies.Copier.{copy_pointer, copy_each}

-- The types of the Kubernetes libraries, as they are in memory: `Foreign` is what their pointers
-- point to.
pub record Shapes : Type 1 where
  pub EnvVar : Type 0
  pub ObjectMeta : Type 0
  pub ListMeta : Type 0
  pub Foreign : Type 0

-- The structs in memory.
pub record ServiceCell : Type 0 where
  pub group : Option ℕ
  pub topology : Topology
  pub config_secret_name : Option ℕ
  pub ring_secret_name : Option ℕ
  pub files_secret_name : Option ℕ
  pub bind : Option ℕ
  pub name : String
  pub channel : Option ℕ

pub record V1beta2Cell : Type 0 where
  pub count : ℤ
  pub image : String
  pub service : ServiceCell
  pub env : Option ℕ
  pub persistent_storage : Option ℕ

pub record SpecCell : Type 0 where
  pub v1beta2 : Option ℕ

module _ (shapes : Shapes) where
  pub record HabitatCell : Type 0 where
    pub meta : shapes.ObjectMeta
    pub spec : SpecCell
    pub status : HabitatStatus
    pub custom_version : Option ℕ

  pub record HabitatListCell : Type 0 where
    pub list_meta : shapes.ListMeta
    pub items : Option ℕ

  -- What stands at an address.
  pub data Cell : Type 0 where
    a_string : String → Cell
    a_bind : Bind → Cell
    many_binds : List Bind → Cell
    many_env_vars : List shapes.EnvVar → Cell
    a_storage : PersistentStorage → Cell
    a_status : HabitatStatus → Cell
    a_service : ServiceCell → Cell
    a_v1beta2 : V1beta2Cell → Cell
    a_spec : SpecCell → Cell
    a_habitat : HabitatCell → Cell
    many_habitats : List HabitatCell → Cell
    a_habitat_list : HabitatListCell → Cell
    a_foreign : shapes.Foreign → Cell

  -- A cell, read at a type.
  abbrev pub as_string : Cell → Option String
  as_string (a_string x) = some x
  as_string _ = none

  abbrev pub as_bind : Cell → Option Bind
  as_bind (a_bind x) = some x
  as_bind _ = none

  abbrev pub as_binds : Cell → Option (List Bind)
  as_binds (many_binds x) = some x
  as_binds _ = none

  abbrev pub as_env_vars : Cell → Option (List shapes.EnvVar)
  as_env_vars (many_env_vars x) = some x
  as_env_vars _ = none

  abbrev pub as_storage : Cell → Option PersistentStorage
  as_storage (a_storage x) = some x
  as_storage _ = none

  abbrev pub as_status : Cell → Option HabitatStatus
  as_status (a_status x) = some x
  as_status _ = none

  abbrev pub as_service : Cell → Option ServiceCell
  as_service (a_service x) = some x
  as_service _ = none

  abbrev pub as_v1beta2 : Cell → Option V1beta2Cell
  as_v1beta2 (a_v1beta2 x) = some x
  as_v1beta2 _ = none

  abbrev pub as_spec : Cell → Option SpecCell
  as_spec (a_spec x) = some x
  as_spec _ = none

  abbrev pub as_habitat : Cell → Option HabitatCell
  as_habitat (a_habitat x) = some x
  as_habitat _ = none

  abbrev pub as_habitats : Cell → Option (List HabitatCell)
  as_habitats (many_habitats x) = some x
  as_habitats _ = none

  abbrev pub as_habitat_list : Cell → Option HabitatListCell
  as_habitat_list (a_habitat_list x) = some x
  as_habitat_list _ = none

  -- `DeepCopyInto` of the libraries' types.
  pub record Copying : Type 0 where
    pub env_var : shapes.EnvVar → Cmd Cell shapes.EnvVar
    pub object_meta : shapes.ObjectMeta → Cmd Cell shapes.ObjectMeta

  -- `*out = new(string); **out = **in`
  abbrev pub copy_string : Option ℕ → Cmd Cell (Option ℕ)
  copy_string = copy_pointer as_string a_string pure

  -- `ServiceV1beta2.DeepCopyInto`; each gives what `out` is afterwards.
  unfoldable pub service_into : ServiceCell → Cmd Cell ServiceCell
  service_into s = copy_string s.group >>= λ group. copy_string s.config_secret_name >>= λ config.
      copy_string s.ring_secret_name >>= λ ring. copy_string s.files_secret_name >>= λ files.
      copy_pointer as_binds many_binds pure s.bind >>= λ binds. copy_string s.channel >>= λ channel.
      pure (record s {
        group = group;
        config_secret_name = config;
        ring_secret_name = ring;
        files_secret_name = files;
        bind = binds;
        channel = channel;
      })

  module _ (copying : Copying) where
    unfoldable pub v1beta2_into : V1beta2Cell → Cmd Cell V1beta2Cell
    v1beta2_into s = service_into s.service >>= λ service.
        copy_pointer as_env_vars many_env_vars (copy_each copying.env_var) s.env >>= λ env.
        copy_pointer as_storage a_storage pure s.persistent_storage >>= λ storage.
        pure (record s { service = service; env = env; persistent_storage = storage })

    unfoldable pub spec_into : SpecCell → Cmd Cell SpecCell
    spec_into s = copy_pointer as_v1beta2 a_v1beta2 v1beta2_into s.v1beta2 >>= λ v1beta2.
        pure (record { v1beta2 = v1beta2 })

    unfoldable pub habitat_into : HabitatCell → Cmd Cell HabitatCell
    habitat_into hab = copying.object_meta hab.meta >>= λ meta. spec_into hab.spec >>= λ spec.
        copy_string hab.custom_version >>= λ version.
        pure (record hab { meta = meta; spec = spec; custom_version = version })

    unfoldable pub habitat_list_into : HabitatListCell → Cmd Cell HabitatListCell
    habitat_list_into habs =
        copy_pointer as_habitats many_habitats (copy_each habitat_into) habs.items >>= λ items.
        pure (record habs { items = items })

    -- `DeepCopy` of each type, on a pointer that can be nil.
    abbrev pub deep_copy_bind : Option ℕ → Cmd Cell (Option ℕ)
    deep_copy_bind = copy_pointer as_bind a_bind pure

    abbrev pub deep_copy_storage : Option ℕ → Cmd Cell (Option ℕ)
    deep_copy_storage = copy_pointer as_storage a_storage pure

    abbrev pub deep_copy_status : Option ℕ → Cmd Cell (Option ℕ)
    deep_copy_status = copy_pointer as_status a_status pure

    abbrev pub deep_copy_service : Option ℕ → Cmd Cell (Option ℕ)
    deep_copy_service = copy_pointer as_service a_service service_into

    abbrev pub deep_copy_v1beta2 : Option ℕ → Cmd Cell (Option ℕ)
    deep_copy_v1beta2 = copy_pointer as_v1beta2 a_v1beta2 v1beta2_into

    abbrev pub deep_copy_spec : Option ℕ → Cmd Cell (Option ℕ)
    deep_copy_spec = copy_pointer as_spec a_spec spec_into

    abbrev pub deep_copy_habitat : Option ℕ → Cmd Cell (Option ℕ)
    deep_copy_habitat = copy_pointer as_habitat a_habitat habitat_into

    abbrev pub deep_copy_habitat_list : Option ℕ → Cmd Cell (Option ℕ)
    deep_copy_habitat_list = copy_pointer as_habitat_list a_habitat_list habitat_list_into
