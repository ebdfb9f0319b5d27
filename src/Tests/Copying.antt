-- ===== src/Tests/Copying.antt =====
-- The theorems on the deep copies, for libraries whose types hold no pointers.
use habitat_operator.Base.{ℕ, pos, String, Option, none, some, [], ◌∷◌, ◌≡◌, refl, arith}
use habitat_operator.Types.{Habitat, HabitatStatus, Slice, topology_leader, PersistentStorage}
use habitat_operator.Kube.Objects as Objects
use habitat_operator.Copies.{
  Shapes, HabitatCell, ServiceCell, Cell, a_string, many_binds, a_storage, a_v1beta2, a_habitat,
  many_habitats, a_habitat_list, deep_copy_habitat, deep_copy_habitat_list, habitat_into,
  habitat_list_into, spec_into,
}
use habitat_operator.Memory.{Heap, Cells, put, pure}
use habitat_operator.Copies.Grows.{IsWhole, Within, view_plain, plain-IsCopier}
use habitat_operator.Copies.Views.{
  Library, view_habitat, view_v1beta2, view_service, view_habitat_list,
}
use habitat_operator.Copies.Correct.{
  view_habitat_pointer, view_list_pointer, deep_copy_habitat_reads,
  deep_copy_habitat_list_independent,
}

abbrev shapes : Shapes
shapes = record {
  EnvVar = Objects.EnvVar;
  ObjectMeta = Objects.Meta;
  ListMeta = String;
  Foreign = ℕ;
}

library : Library shapes
library = record {
  copying = record { env_var = pure; object_meta = pure };
  view_env_var = view_plain;
  view_meta = view_plain;
  env_var_stable = λ f g w a v e. e;
  meta_stable = λ f g w a v e. e;
  env_var_copied = plain-IsCopier;
  meta_copied = plain-IsCopier;
}

abbrev meta : Objects.Meta
meta = record {
  name = "db";
  namespace = "web";
  uid = "1";
  resource_version = "7";
  labels = [];
  owners = [];
}

abbrev status : HabitatStatus
status = record { state = ""; message = "" }

abbrev empty : Cells (Cell shapes)
empty p = none

abbrev storage : PersistentStorage
storage = record { size = "1Gi"; mount_path = "/data"; storage_class_name = "fast" }

abbrev service_cell : ServiceCell
service_cell = record {
  group = some 0;
  topology = topology_leader;
  config_secret_name = none;
  ring_secret_name = none;
  files_secret_name = none;
  bind = some 1;
  name = "db";
  channel = none;
}

-- A Habitat at address 4, with a group, no binds, and a storage.
abbrev memory : Heap (Cell shapes)
memory = record {
  next = 5;
  cell =
      put
        (put (put (put (put empty 0 (a_string "default")) 1 (many_binds [])) 2 (a_storage storage))
          3
          (a_v1beta2 (record {
            count = pos 3;
            image = "db:1";
            service = service_cell;
            env = none;
            persistent_storage = some 2;
          })))
        4
        (a_habitat (record {
          meta = meta;
          spec = record { v1beta2 = some 3 };
          status = status;
          custom_version = none;
        }));
}

memory-IsWhole : IsWhole memory
memory-IsWhole p n = ground arith

abbrev stored : Option Habitat
stored = some (record {
  meta = meta;
  spec = some (record {
    count = pos 3;
    image = "db:1";
    service = record {
      group = some "default";
      topology = topology_leader;
      config_secret_name = none;
      ring_secret_name = none;
      files_secret_name = none;
      bind = some [];
      name = "db";
      channel = none;
    };
    env = none;
    persistent_storage = some storage;
  });
  status = status;
  custom_version = none;
})

stored_reads : view_habitat_pointer shapes library (some 4) memory.cell ≡ some stored
unfolding view_habitat view_v1beta2 view_service library
stored_reads = refl

deep_copy_habitat_reads_example :
    (q : Option ℕ) × (k : Heap (Cell shapes)) × (deep_copy_habitat shapes library.copying
        (some 4)
        memory
      ≡ some (q, k))
    × (view_habitat_pointer shapes library q k.cell ≡ some stored)
    × (view_habitat_pointer shapes library (some 4) k.cell ≡ some stored)
deep_copy_habitat_reads_example =
    deep_copy_habitat_reads shapes library (some 4) memory stored memory-IsWhole stored_reads

-- A list at address 2, of one Habitat with a custom version.
abbrev habitat_at : ℕ → HabitatCell shapes
habitat_at p = record {
  meta = meta;
  spec = record { v1beta2 = none };
  status = status;
  custom_version = some p;
}

abbrev list_memory : Heap (Cell shapes)
list_memory = record {
  next = 3;
  cell =
      put (put (put empty 0 (a_string "v1beta2")) 1 (many_habitats (habitat_at 0 ∷ []))) 2
        (a_habitat_list (record { list_meta = "7"; items = some 1 }));
}

abbrev copied : Heap (Cell shapes)
copied = record {
  next = 6;
  cell =
      put (put (put list_memory.cell 3 (a_string "v1beta2")) 4 (many_habitats (habitat_at 3 ∷ [])))
        5 (a_habitat_list (record { list_meta = "7"; items = some 4 }));
}

-- The custom version of the original is overwritten.
abbrev overwritten : Cells (Cell shapes)
overwritten = put copied.cell 0 (a_string "v1beta1")

list_memory-IsWhole : IsWhole list_memory
list_memory-IsWhole p n = ground arith

abbrev listed : Option (String × Slice Habitat)
listed = some (
  "7",
  some (record { meta = meta; spec = none; status = status; custom_version = some "v1beta2" } ∷ []),
)

listed_reads : view_list_pointer shapes library (some 2) list_memory.cell ≡ some listed
unfolding view_habitat_list view_habitat library
listed_reads = refl

list_copied :
    deep_copy_habitat_list shapes library.copying (some 2) list_memory ≡ some (some 5, copied)
unfolding habitat_list_into habitat_into spec_into library
list_copied = refl

overwritten-Within : Within 3 copied.cell overwritten
overwritten-Within p c n e = ground arith

deep_copy_habitat_list_independent_example :
    view_list_pointer shapes library (some 5) overwritten ≡ some listed
deep_copy_habitat_list_independent_example =
    deep_copy_habitat_list_independent shapes library (some 2) (some 5) list_memory copied listed
      list_memory-IsWhole listed_reads list_copied overwritten overwritten-Within
