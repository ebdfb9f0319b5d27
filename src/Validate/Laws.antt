-- ===== src/Validate/Laws.antt =====
-- What a validated Habitat is, and which versions the controller handles.
use habitat_operator.Base.{
  String, ◌<>◌, eq_iff, ◌≡◌, refl, ◌≢◌, ◌↔◌, ◌⊎◌, inl, inr, Option, none, some, [], Result, ok, err,
  arith,
}
use habitat_operator.Types.{Habitat, V1beta2, Topology, topology_standalone, topology_leader}
use habitat_operator.Ring.{find_string_submatch}
use habitat_operator.Ring.Language.{IsRing, find_string_submatch_iff, find_string_submatch_cases}
use habitat_operator.Validate.{
  validate_custom_object, and_then, validate_spec, validate_topology, validate_ring,
  check_custom_version_match,
}

-- A ring secret's name has the form that the controller can take apart.
abbrev pub HasRing : Option String → Type 0
HasRing none = Unit
HasRing (some rsn) = (g d : String) × IsRing rsn g d × (g ≢ "")

pub record IsValidSpec (spec : V1beta2) : Type 0 where
  pub topology :
      (spec.service.topology ≡ topology_standalone) ⊎ (spec.service.topology ≡ topology_leader)
  pub ring : HasRing spec.service.ring_secret_name

abbrev pub IsValid : Habitat → Type 0
IsValid h = (spec : V1beta2) × (h.spec ≡ some spec) × IsValidSpec spec

validate_topology_iff :
    (t : Topology)
    → (validate_topology t ≡ ok tt) ↔ ((t ≡ topology_standalone) ⊎ (t ≡ topology_leader))
unfolding validate_topology
validate_topology_iff t = ground (arith, eq_iff t topology_standalone, eq_iff t topology_leader)

ring_malformed :
    (rsn : String)
    → find_string_submatch rsn ≡ []
    → validate_ring (some rsn) ≡ err ("malformed ring secret name: " <> rsn)
unfolding validate_ring
ring_malformed rsn e = rw (e, validate_ring)

validate_ring_sound : (r : Option String) → validate_ring r ≡ ok tt → HasRing r
unfolding validate_ring
validate_ring_sound none h = tt
validate_ring_sound (some rsn) h = elim (find_string_submatch_cases rsn) [
  | inl e ↦ cc (ring_malformed rsn e)
  | inr (g, e) ↦ let (ne, (d, r)) = (find_string_submatch_iff rsn g).0 e in (g, d, r, ne)
]

validate_ring_complete : (r : Option String) → HasRing r → validate_ring r ≡ ok tt
unfolding validate_ring
validate_ring_complete none h = refl
validate_ring_complete (some rsn) (g, d, r, ne) =
    rw ((find_string_submatch_iff rsn g).1 (ne, (d, r)), validate_ring)

and_then_ok : (r q : Result String (Unit {0})) → and_then r q ≡ ok tt → (r ≡ ok tt) × (q ≡ ok tt)
and_then_ok (ok tt) q h = (refl, h)
and_then_ok (err e) q h = cc

validate_spec_sound : (spec : V1beta2) → validate_spec spec ≡ ok tt → IsValidSpec spec
unfolding validate_spec
validate_spec_sound spec h =
    let (a, b) =
      and_then_ok (validate_topology spec.service.topology)
        (validate_ring spec.service.ring_secret_name) h in
    record { topology = (validate_topology_iff _).0 a; ring = validate_ring_sound _ b }

validate_spec_complete : (spec : V1beta2) → IsValidSpec spec → validate_spec spec ≡ ok tt
unfolding validate_spec
validate_spec_complete spec v =
    rw ((validate_topology_iff spec.service.topology).1 v.topology, validate_spec)
      (validate_ring_complete spec.service.ring_secret_name v.ring)

-- A Habitat is accepted exactly when it has a specification whose topology is `standalone` or
-- `leader`, and whose ring secret, if it names one, is a nonempty name of word characters and
-- hyphens, a hyphen, and a revision of fourteen digits.
pub validate_custom_object_iff : (h : Habitat) → (validate_custom_object h ≡ ok tt) ↔ IsValid h
unfolding validate_custom_object
validate_custom_object_iff h = (sound h.spec refl, complete)
  where
    sound : (o : Option V1beta2) → h.spec ≡ o → validate_custom_object h ≡ ok tt → IsValid h
    sound none e v = cc (rw (e, validate_custom_object) at v)
    sound (some spec) e v =
        (spec, e, validate_spec_sound spec (rw (e, validate_custom_object) at v))

    complete : IsValid h → validate_custom_object h ≡ ok tt
    complete (spec, e, v) = rw (e, validate_custom_object) (validate_spec_complete spec v)

-- Only a Habitat whose custom version is `v1beta2` is for this controller.
pub check_custom_version_match_iff :
    (v : Option String) → (check_custom_version_match v ≡ ok tt) ↔ (v ≡ some "v1beta2")
unfolding check_custom_version_match
check_custom_version_match_iff none = ground arith
check_custom_version_match_iff (some v) = ground (arith, eq_iff v "v1beta2")
