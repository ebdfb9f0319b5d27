-- ===== src/Tests/Habitats.antt =====
-- A Habitat with every optional field, and what is said of it.
use habitat_operator.Base.{
  Bool, false, String, ◌==◌, false, none, some, [], ◌∷◌, pos, ◌≡◌, refl, ◌≢◌, ◌↔◌, ok, inr,
  if◌then◌else◌,
}
use habitat_operator.Kube.Objects.{Pod}
use habitat_operator.Types.{Habitat, V1beta2}
use habitat_operator.Ring.{find_string_submatch}
use habitat_operator.Ring.Language.{IsRing, find_string_submatch_iff}
use habitat_operator.Validate.Laws.{IsValid, IsValidSpec, validate_custom_object_iff}
use habitat_operator.Validate.{validate_custom_object}
use habitat_operator.State.{State, missing, found, habitat}
use habitat_operator.Tests.Cluster.{Cluster, answering, cluster, named}

abbrev pub ring_secret : String
ring_secret = "crew-20170829113029"

abbrev pub spec : V1beta2
spec = record {
  count = pos 3;
  image = "habitat/redis";
  service = record {
    group = none;
    topology = "leader";
    config_secret_name = some "user-toml";
    ring_secret_name = some ring_secret;
    files_secret_name = some "keys";
    bind = some (record { name = "db"; service = "redis"; group = "default" } ∷ []);
    name = "redis";
    channel = some "stable";
  };
  env = none;
  persistent_storage =
      some (record { size = "1Gi"; mount_path = "/data"; storage_class_name = "standard" });
}

abbrev pub db : Habitat
db = record {
  meta = named "lab" "db";
  spec = some spec;
  status = record { state = ""; message = "" };
  custom_version = some "v1beta2";
}

abbrev pub pod_at : String → Pod
pod_at ip = record { meta = named "lab" "db-0"; phase = "Running"; pod_ip = ip }

abbrev pub state_of : (down : Bool) → Cluster → State (answering down)
state_of down w = record {
  world = w;
  habitats = λ k. if k == "lab/db" then found (habitat db) else missing;
  config_maps = λ _. missing;
  events = [];
  queue = [];
}

abbrev pub at : Cluster → State cluster
at = state_of false

abbrev pub fresh : Cluster
fresh = record { leader = none; pods = pod_at "10.0.0.7" ∷ []; has_set = false }

pub ring_secret_submatch : find_string_submatch ring_secret ≡ (ring_secret ∷ "crew" ∷ [])
unfolding find_string_submatch
ring_secret_submatch = refl

pub spec-IsValid : IsValidSpec spec
spec-IsValid = record {
  topology = inr refl;
  ring =
      let (ne, (d, r)) = (find_string_submatch_iff ring_secret "crew").0 ring_secret_submatch in
      ("crew", d, r, ne);
}

validate_custom_object_iff_example : (validate_custom_object db ≡ ok tt) ↔ IsValid db
validate_custom_object_iff_example = validate_custom_object_iff db

abbrev crew : String
crew = "crew"

find_string_submatch_iff_example :
    (find_string_submatch ring_secret ≡ (ring_secret ∷ crew ∷ []))
    ↔ ((crew ≢ "") × ((d : String) × IsRing ring_secret crew d))
find_string_submatch_iff_example = find_string_submatch_iff ring_secret crew
