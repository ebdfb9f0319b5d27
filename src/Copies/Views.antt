-- ===== src/Copies/Views.antt =====
-- What the structs in memory read as: the values of Types.antt. Where something in them cannot be
-- read, there is no value.
use habitat_operator.Base.{ℕ, String, Option, some}
use habitat_operator.Types.{Bind, PersistentStorage, Service, V1beta2, Habitat, Slice}
use habitat_operator.Kube.Objects as Objects
use habitat_operator.Copies.{
  Shapes, ServiceCell, V1beta2Cell, SpecCell, HabitatCell, HabitatListCell, Cell, as_string,
  as_binds, as_env_vars, as_storage, as_v1beta2, as_habitats, Copying,
}
use habitat_operator.Memory.{Cells, then_some}
use habitat_operator.Copies.Copier.{view_pointer, view_each}
use habitat_operator.Copies.Grows.{view_plain, IsStable, IsCopier}

-- What the values of the libraries' types read as, and that these are copied deeply.
pub record Library (shapes : Shapes) : Type 0 where
  pub copying : Copying shapes
  pub view_env_var : shapes.EnvVar → Cells (Cell shapes) → Option Objects.EnvVar
  pub view_meta : shapes.ObjectMeta → Cells (Cell shapes) → Option Objects.Meta
  pub env_var_stable : IsStable view_env_var
  pub meta_stable : IsStable view_meta
  pub env_var_copied : IsCopier view_env_var copying.env_var
  pub meta_copied : IsCopier view_meta copying.object_meta

module _ (shapes : Shapes) where
  abbrev pub Memory : Type 0
  Memory = Cells (Cell shapes)

  abbrev pub view_string : Option ℕ → Memory → Option (Option String)
  view_string = view_pointer (as_string shapes) view_plain

  abbrev pub view_binds : Option ℕ → Memory → Option (Slice Bind)
  view_binds = view_pointer (as_binds shapes) view_plain

  abbrev pub view_storage : Option ℕ → Memory → Option (Option PersistentStorage)
  view_storage = view_pointer (as_storage shapes) view_plain

  unfoldable pub view_service : ServiceCell → Memory → Option Service
  view_service s f = then_some (view_string s.group f) λ group.
      then_some (view_string s.config_secret_name f) λ config.
        then_some (view_string s.ring_secret_name f) λ ring.
          then_some (view_string s.files_secret_name f) λ files.
            then_some (view_binds s.bind f) λ binds. then_some (view_string s.channel f) λ channel.
              some (record {
                group = group;
                topology = s.topology;
                config_secret_name = config;
                ring_secret_name = ring;
                files_secret_name = files;
                bind = binds;
                name = s.name;
                channel = channel;
              })

  module _ (library : Library shapes) where
    abbrev pub view_env : Option ℕ → Memory → Option (Slice Objects.EnvVar)
    view_env = view_pointer (as_env_vars shapes) (view_each library.view_env_var)

    unfoldable pub view_v1beta2 : V1beta2Cell → Memory → Option V1beta2
    view_v1beta2 s f = then_some (view_service s.service f) λ service.
        then_some (view_env s.env f) λ env.
          then_some (view_storage s.persistent_storage f) λ storage. some (record {
            count = s.count;
            image = s.image;
            service = service;
            env = env;
            persistent_storage = storage;
          })

    abbrev pub view_spec : SpecCell → Memory → Option (Option V1beta2)
    view_spec s = view_pointer (as_v1beta2 shapes) view_v1beta2 s.v1beta2

    unfoldable pub view_habitat : HabitatCell shapes → Memory → Option Habitat
    view_habitat hab f = then_some (library.view_meta hab.meta f) λ meta.
        then_some (view_spec hab.spec f) λ spec.
          then_some (view_string hab.custom_version f) λ version.
            some
              (record { meta = meta; spec = spec; status = hab.status; custom_version = version })

    unfoldable pub view_habitat_list :
        HabitatListCell shapes → Memory → Option (shapes.ListMeta × Slice Habitat)
    view_habitat_list habs f =
        then_some (view_pointer (as_habitats shapes) (view_each view_habitat) habs.items f)
          λ items. some (habs.list_meta, items)
