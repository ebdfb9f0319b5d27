-- ===== src/Labels.antt =====
-- pkg/controller/v1beta2/controller.go: the labels that tie pods and StatefulSets to their Habitat,
-- and the peer ConfigMap.
use habitat_operator.Base.{
  String, ◌<>◌, join, ◌==◌, Bool, none, some, [], ◌∷◌, Result, ok, err, lookup, get_or_empty,
  if◌then◌else◌,
}
use habitat_operator.Kube.Objects.{Meta, ConfigMap, OwnerReference}
use habitat_operator.Types.{Habitat, habitat_label, habitat_name_label, api_version, habitat_kind}

key_of_name : String → String → Result String String
key_of_name namespace name =
    if name == ""
    then err ("Empty value to the label: \"" <> (habitat_name_label <> "\""))
    else ok (join "/" namespace name)

unfoldable pub habitat_key_from_labeled_resource : Meta → Result String String
unfolding key_of_name
habitat_key_from_labeled_resource r = elim (lookup habitat_name_label r.labels) [
  | none ↦ err ("Could not retrieve \"" <> (habitat_name_label <> "\" label"))
  | some name ↦ key_of_name r.namespace name
]

unfoldable pub is_habitat_object : Meta → Bool
is_habitat_object m = get_or_empty habitat_label m.labels == "true"

abbrev pub peer_file : String
peer_file = "peer-watch-file"

abbrev pub peer_filename : String
peer_filename = "peer-ip"

abbrev pub config_map_name : String
config_map_name = peer_file

abbrev pub owner_reference : Habitat → OwnerReference
owner_reference h = record {
  api_version = api_version;
  kind = habitat_kind;
  name = h.meta.name;
  uid = h.meta.uid;
}

unfoldable pub new_config_map : String → Habitat → ConfigMap
new_config_map ip h = record {
  meta = record {
    name = config_map_name;
    namespace = h.meta.namespace;
    uid = "";
    resource_version = "";
    labels = (habitat_label, "true") ∷ [];
    owners = owner_reference h ∷ [];
  };
  contents = some ((peer_file, ip) ∷ []);
}
