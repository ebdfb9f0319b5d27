-- ===== src/Validate.antt =====
-- pkg/controller/v1beta2/utils.go: `validateCustomObject` and `checkCustomVersionMatch`. An error
-- of theirs is its text.
pub mod Laws
use habitat_operator.Base.{
  String, ◌<>◌, ◌==◌, Option, none, some, Result, ok, err, ltb, length, if◌then◌else◌,
}
use habitat_operator.Types.{Habitat, V1beta2, Topology, topology_standalone, topology_leader}
use habitat_operator.Ring.{find_string_submatch}

validate_topology : Topology → Result String (Unit {0})
validate_topology t =
    if t == topology_standalone
    then ok tt
    else if t == topology_leader
    then ok tt
    else err ("unknown topology: " <> t)

validate_ring : Option String → Result String (Unit {0})
validate_ring none = ok tt
validate_ring (some rsn) =
    let ring_parts = find_string_submatch rsn in
    if ltb (length ring_parts) 2 then err ("malformed ring secret name: " <> rsn) else ok tt

-- The next check runs when the first returned nil.
abbrev pub and_then : Result String (Unit {0}) → Result String (Unit {0}) → Result String (Unit {0})
and_then (ok _) next = next
and_then (err e) next = err e

validate_spec : V1beta2 → Result String (Unit {0})
validate_spec spec =
    and_then (validate_topology spec.service.topology) (validate_ring spec.service.ring_secret_name)

abbrev validate_pointer : Option V1beta2 → Result String (Unit {0})
validate_pointer none = err "missing `spec.v1beta2` field"
validate_pointer (some spec) = validate_spec spec

unfoldable pub validate_custom_object : Habitat → Result String (Unit {0})
unfolding validate_topology validate_ring validate_spec
validate_custom_object h = validate_pointer h.spec

unfoldable pub check_custom_version_match : Option String → Result String (Unit {0})
check_custom_version_match none = err "no CustomVersion field provided"
check_custom_version_match (some v) =
    if v == "v1beta2" then ok tt else err ("wrong CustomVersion: " <> v)
