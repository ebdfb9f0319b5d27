-- ===== src/Tests/Conforms.antt =====
-- The theorems on reconciliation, at one Habitat.
use habitat_operator.Base.{
  some, true, Bool, ◌==◌, ◌≢◌, panics, Result, ok, err, Option, ap, sym, ℕ, String, false, none, [],
  ◌∷◌, ◌++◌, ◌≡◌, refl, returns, fails,
}
use habitat_operator.Types.{Habitat}
use habitat_operator.Validate.Laws.{IsValid}
use habitat_operator.State.{State, found, habitat, text, event, warning}
use habitat_operator.Conform.{conform, validation_failed, message_validation_failed}
use habitat_operator.Conform.Server.{ServesSet}
use habitat_operator.Conform.Total.{conform_total, conform-not-IsValid}
use habitat_operator.Tests.Cluster.{
  Cluster, cluster, named, stored, create_set, get_set, update_set,
}
use habitat_operator.Tests.Habitats.{spec, db, at, fresh, ring_secret, spec-IsValid}
use habitat_operator.Conform.Safety.{conform-ne-panics}
use habitat_operator.Conform.Steps.{Steps, conform-Steps}
use habitat_operator.Kube.Objects.{Labels}
use habitat_operator.Kube.Api.{StoredStatefulSet}
use habitat_operator.Workload.{Sts}
use habitat_operator.Tests.Peers.{refusing, cached-IsWritable, led_by, led_by-IsCurrent, serves}

pub fresh_set :
    (sts : Sts cluster) (b : Bool) (w : Cluster)
    → b ≡ false
    → (t : StoredStatefulSet ℕ) × ((create_set b sts w).0 ≡ ok t)
fresh_set sts false w e = (stored sts, refl)
fresh_set sts true w e = cc

pub old_set :
    (sts : Sts cluster) (b : Bool) (w : Cluster)
    → b ≡ true
    → w.has_set ≡ b
    → (e : String) × ((create_set b sts w).0 ≡ err e)
      × ((e == "already exists") ≡ true)
      × ((create_set b sts w).1.has_set ≡ true)
old_set sts true w e same = ("already exists", refl, refl, same)
old_set sts false w e same = cc

pub found_set :
    (b : Bool) (namespace name : String)
    → b ≡ true
    → (t : StoredStatefulSet ℕ) × (get_set b namespace name ≡ ok t) × (b ≡ true)
found_set true namespace name e = (_, refl, refl)
found_set false namespace name e = cc

pub updated_set :
    (sts : Sts cluster) (b : Bool)
    → b ≡ true
    → (t : StoredStatefulSet ℕ) × (labels : Labels) × (update_set b sts ≡ ok t)
      × (t.match_labels ≡ some labels)
updated_set sts true e = (stored sts, sts.spec.selector, refl, refl)
updated_set sts false e = cc

abbrev pub sets : (sts : Sts cluster) → ServesSet cluster "lab" sts
sets sts = record {
  is_there = λ w. w.has_set;
  created = λ w e. fresh_set sts w.has_set w e;
  refused = λ w e. old_set sts w.has_set w e refl;
  got = λ w e. found_set w.has_set "lab" sts.meta.name e;
  updated = λ w e. updated_set sts w.has_set e;
  deleted = λ _ _ _. refl;
}

conform_total_example : (conform cluster "lab/db" (led_by "10.0.0.7" false)).0 ≡ returns tt
conform_total_example =
    conform_total cluster "lab/db" db spec (led_by "10.0.0.7" false) refl refl spec-IsValid
      (λ w. (named "lab" "user-toml", refl)) (λ w. (named "lab" "keys", refl)) ("1Gi", refl)
      (λ w. (named "default" ring_secret, refl)) (λ sts e. sets sts) serves
      (led_by-IsCurrent "10.0.0.7")

abbrev broken : Habitat
broken = record db { spec = none }

abbrev pub unspecified : State cluster
unspecified = record (at fresh) { habitats = λ _. found (habitat broken) }

broken-not-IsValid : ¬ IsValid broken
broken-not-IsValid (spec, e, v) = cc

conform-not-IsValid_example :
    (m : String) × (conform cluster "lab/db" unspecified ≡ (
      fails (text m),
      record unspecified {
        events = [] ++ (event broken.meta warning validation_failed message_validation_failed ∷ []);
      },
    ))
conform-not-IsValid_example =
    conform-not-IsValid cluster "lab/db" broken unspecified refl broken-not-IsValid

pub failing : (m : String) × ((conform cluster "lab/db" unspecified).0 ≡ fails (text m))
failing =
    let (m, e) = conform-not-IsValid cluster "lab/db" broken unspecified refl broken-not-IsValid in
    (m, ap (λ r. r.0) e)

selector_of :
    (b : Bool) (sts : Sts refusing) (t : StoredStatefulSet ℕ)
    → update_set b sts ≡ ok t
    → t.match_labels ≡ some sts.spec.selector
selector_of false sts t e = cc
selector_of true sts t e = ap labels_of (sym e)
  where
    labels_of : Result String (StoredStatefulSet ℕ) → Option Labels
    labels_of (ok t) = t.match_labels
    labels_of (err e) = none

conform-ne-panics_example : (conform refusing "lab/db" (led_by "10.0.0.7" true)).0 ≢ panics
conform-ne-panics_example =
    conform-ne-panics refusing "lab/db" (led_by "10.0.0.7" true)
      (λ _ sts w t e. (sts.spec.selector, selector_of w.has_set sts t e))
      (λ h _. cached-IsWritable true h)

reconciled : (conform cluster "lab/db" (led_by "10.0.0.7" false)).0 ≡ returns tt
reconciled =
    conform_total cluster "lab/db" db spec (led_by "10.0.0.7" false) refl refl spec-IsValid
      (λ w. (named "lab" "user-toml", refl)) (λ w. (named "lab" "keys", refl)) ("1Gi", refl)
      (λ w. (named "default" ring_secret, refl)) (λ sts e. sets sts) serves
      (led_by-IsCurrent "10.0.0.7")

conform-Steps_example :
    Steps cluster db
      (led_by "10.0.0.7" false)
      (conform cluster "lab/db" (led_by "10.0.0.7" false)).1
conform-Steps_example = conform-Steps cluster "lab/db" db (led_by "10.0.0.7" false) refl reconciled
