-- ===== src/Workload/Parts.antt =====
-- pkg/controller/v1beta2/stateful_sets.go: the parts of the StatefulSet, each as the function that
-- adds it. `Containers[0]` is the one container that `base_stateful_set` puts there.
use habitat_operator.Base.{String, ◌<>◌, true, false, none, List, [], ◌∷◌, ◌++◌}
use habitat_operator.Base.Int.{int32}
use habitat_operator.Types.{
  Habitat, V1beta2, PersistentStorage, habitat_label, habitat_name_label, topology_label,
  habitat_topology_label,
}
use habitat_operator.Kube.Objects.{
  StatefulSet, PodSpec, Container, Volume, VolumeMount, from_config_map, from_secret, empty_dir,
}
use habitat_operator.Labels.{peer_file, peer_filename, config_map_name, owner_reference}
use habitat_operator.Workload.Args.{config_map_dir, effective_topology, hab_args}

abbrev pub habitat_container : V1beta2 → Container
habitat_container hs = record {
  name = "habitat-service";
  image = hs.image;
  command = [];
  args = hab_args hs.service;
  mounts = record { name = "config"; mount_path = config_map_dir; read_only = true } ∷ [];
  env = hs.env;
}

abbrev pub config_volume : Volume
config_volume = record {
  name = "config";
  source = from_config_map config_map_name (record { key = peer_file; path = peer_filename } ∷ []);
}

unfoldable pub base_stateful_set : {Q : Type 0} → Habitat → V1beta2 → StatefulSet Q
base_stateful_set h hs = record {
  meta = record {
    name = h.meta.name;
    namespace = "";
    uid = "";
    resource_version = "";
    labels = (habitat_label, "true") ∷ (habitat_name_label, h.meta.name) ∷ [];
    owners = owner_reference h ∷ [];
  };
  spec = record {
    selector = (habitat_name_label, h.meta.name) ∷ [];
    replicas = int32 hs.count;
    pod_management_policy = "Parallel";
    template = record {
      labels =
          (habitat_label, "true")
          ∷ (habitat_name_label, h.meta.name)
          ∷ (topology_label, effective_topology hs.service.topology)
          ∷ (habitat_topology_label, effective_topology hs.service.topology)
          ∷ [];
      spec = record {
        init_containers = [];
        containers = habitat_container hs ∷ [];
        volumes = config_volume ∷ [];
      };
    };
    update_strategy = "OnDelete";
    volume_claim_templates = [];
  };
}

abbrev pub at_first : (Container → Container) → List Container → List Container
at_first f [] = []
at_first f (c ∷ cs) = f c ∷ cs

abbrev pub files_directory : V1beta2 → String
files_directory hs = "/hab/svc/" <> (hs.service.name <> "/files")

abbrev pub files_secret_mount : VolumeMount
files_secret_mount = record { name = "files-secrets"; mount_path = "/mnt/files"; read_only = false }

abbrev pub files_mount : V1beta2 → VolumeMount
files_mount hs = record { name = "files"; mount_path = files_directory hs; read_only = false }

abbrev pub copy_files : V1beta2 → Container
copy_files hs = record {
  name = "copy-files";
  image = "busybox";
  command = "sh" ∷ "-c" ∷ ("cp /mnt/files/* " <> files_directory hs) ∷ [];
  args = [];
  mounts = files_secret_mount ∷ files_mount hs ∷ [];
  env = none;
}

-- Writes through `spec` and `tSpec`, the pointers into the StatefulSet.
module _ {Q : Type 0} where
  abbrev pub on_pod : (PodSpec → PodSpec) → StatefulSet Q → StatefulSet Q
  on_pod f sts = record sts {
    spec = record (sts.spec) {
      template = record (sts.spec.template) { spec = f sts.spec.template.spec };
    };
  }

  abbrev pub add_volume : Volume → StatefulSet Q → StatefulSet Q
  add_volume v = on_pod (λ p. record p { volumes = p.volumes ++ (v ∷ []) })

  abbrev pub add_mount : VolumeMount → StatefulSet Q → StatefulSet Q
  add_mount m = on_pod (λ p. record p {
    containers = at_first (λ c. record c { mounts = c.mounts ++ (m ∷ []) }) p.containers;
  })

  abbrev pub add_args : List String → StatefulSet Q → StatefulSet Q
  add_args xs =
      on_pod (λ p. record p {
        containers = at_first (λ c. record c { args = c.args ++ xs }) p.containers;
      })

  abbrev pub add_init_container : Container → StatefulSet Q → StatefulSet Q
  add_init_container c = on_pod (λ p. record p { init_containers = p.init_containers ++ (c ∷ []) })

  unfoldable pub mount_config_secret : V1beta2 → String → StatefulSet Q → StatefulSet Q
  mount_config_secret hs secret sts =
      add_volume
        (record {
          name = "user-config";
          source = from_secret secret (record { key = "user.toml"; path = "user.toml" } ∷ []);
        })
        (add_mount
          (record {
            name = "user-config";
            mount_path = "/hab/user/" <> (hs.service.name <> "/config");
            read_only = false;
          })
          sts)

  unfoldable pub mount_files_secret : V1beta2 → String → StatefulSet Q → StatefulSet Q
  mount_files_secret hs files sts = add_mount (files_mount hs) (
      add_init_container (copy_files hs) (
        add_volume (record { name = "files"; source = empty_dir })
          (add_volume (record { name = "files-secrets"; source = from_secret files [] }) sts)))

  unfoldable pub mount_storage : PersistentStorage → StatefulSet Q → StatefulSet Q
  mount_storage ps =
      add_mount (record { name = "persistent"; mount_path = ps.mount_path; read_only = false })

  unfoldable pub claim_storage : Habitat → PersistentStorage → Q → StatefulSet Q → StatefulSet Q
  claim_storage h ps q sts = record sts {
    spec = record (sts.spec) {
      volume_claim_templates =
          record {
            name = "persistent";
            namespace = h.meta.namespace;
            labels = (habitat_label, "true") ∷ (habitat_name_label, h.meta.name) ∷ [];
            access_modes = "ReadWriteOnce" ∷ [];
            storage_class_name = ps.storage_class_name;
            storage = q;
          }
          ∷ [];
    };
  }

  unfoldable pub mount_ring : String → String → String → StatefulSet Q → StatefulSet Q
  mount_ring ring_secret_name secret ring_name sts = add_args ("--ring" ∷ ring_name ∷ []) (
      add_mount
        (record { name = ring_secret_name; mount_path = "/hab/cache/keys"; read_only = false })
        (add_volume
          (record {
            name = ring_secret_name;
            source =
                from_secret secret
                  (record { key = "ring-key"; path = ring_secret_name <> ".sym.key" } ∷ []);
          })
          sts))
