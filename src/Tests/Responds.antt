-- ===== src/Tests/Responds.antt =====
-- A change of a Habitat, from its handler to the end of its reconciliation.
use habitat_operator.Base.{
  String, some, false, [], ◌∷◌, ◌++◌, ◌≡◌, ◌≢◌, returns, refl, Option, none, ap,
}
use habitat_operator.Types.{Habitat, V1beta2}
use habitat_operator.State.{State, habitat, add, forget, done}
use habitat_operator.Conform.{conform}
use habitat_operator.Handlers.{handle_hab_update}
use habitat_operator.Worker.{key, quit, worker}
use habitat_operator.Worker.Responds.{update_reconciled}
use habitat_operator.Tests.Cluster.{cluster, named}
use habitat_operator.Tests.Habitats.{spec, db, ring_secret, spec-IsValid}
use habitat_operator.Tests.Peers.{led_by, led_by-IsCurrent, serves}
use habitat_operator.Tests.Conforms.{sets}

abbrev pub smaller : Habitat
smaller = record db { spec = some (record spec { image = "habitat/valkey" }) }

image : Option V1beta2 → String
image none = ""
image (some hs) = hs.image

images_differ : ◌≢◌ {A = String} "habitat/valkey" spec.image
images_differ e = cc

pub specs_differ : smaller.spec ≢ db.spec
unfolding image
specs_differ e = images_differ (ap image e)

abbrev s : State cluster
s = led_by "10.0.0.7" false

update_reconciled_example :
    let t = (handle_hab_update cluster (habitat smaller) (habitat db) s).1 in
    ((handle_hab_update cluster (habitat smaller) (habitat db) s).0 ≡ returns tt)
    × ((conform cluster "lab/db" t).0 ≡ returns tt)
    × ((worker cluster (key "lab/db" ∷ quit ∷ []) t).0 ≡ returns tt)
    × ((worker cluster (key "lab/db" ∷ quit ∷ []) t).1 ≡ record ((conform cluster "lab/db" t).1) {
      queue = s.queue ++ (add "lab/db" ∷ forget "lab/db" ∷ done "lab/db" ∷ []);
    })
update_reconciled_example =
    update_reconciled cluster "lab/db" smaller db spec s specs_differ (refl, refl) refl refl
      spec-IsValid (λ w. (named "lab" "user-toml", refl)) (λ w. (named "lab" "keys", refl))
      ("1Gi", refl) (λ w. (named "default" ring_secret, refl)) (λ t sts e. sets sts) serves
      (led_by-IsCurrent "10.0.0.7")
