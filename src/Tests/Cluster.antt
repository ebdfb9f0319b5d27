-- ===== src/Tests/Cluster.antt =====
-- A small cluster that answers the calls of the API, to run the definitions on.
use habitat_operator.Base.{
  String, ◌==◌, Bool, true, false, Option, none, some, List, [], Result, ok, err, join, ℕ, ◌≡◌,
  refl, if◌then◌else◌,
}
use habitat_operator.Kube.Objects.{Meta, Pod, ConfigMap, StatefulSet}
use habitat_operator.Kube.Api.{Api, StoredStatefulSet}
use habitat_operator.Labels.{peer_file}
use habitat_operator.Peer.{entry}
use habitat_operator.Peer.Server.{PeerServer}

-- The peers' ConfigMap, the running pods, and whether the StatefulSet is there.
pub record Cluster : Type 0 where
  pub leader : Option String
  pub pods : List Pod
  pub has_set : Bool

abbrev pub named : String → String → Meta
named namespace name = record {
  name = name;
  namespace = namespace;
  uid = "";
  resource_version = "1";
  labels = [];
  owners = [];
}

abbrev pub stored : StatefulSet String → StoredStatefulSet ℕ
stored sts = record {
  name = sts.meta.name;
  namespace = sts.meta.namespace;
  match_labels = some sts.spec.selector;
  template = 0;
}

abbrev pub create : Option String → ConfigMap → Cluster → Result String ConfigMap × Cluster
create none cm w = (ok cm, record w { leader = some (entry peer_file cm.contents) })
create (some _) cm w = (err "already exists", w)

abbrev pub update : Bool → ConfigMap → Cluster → Result String ConfigMap × Cluster
update true cm w = (err "conflict", w)
update false cm w = (ok cm, record w { leader = some (entry peer_file cm.contents) })

abbrev pub create_set :
    Bool → StatefulSet String → Cluster → Result String (StoredStatefulSet ℕ) × Cluster
create_set false sts w = (ok (stored sts), record w { has_set = true })
create_set true sts w = (err "already exists", w)

abbrev pub get_set : Bool → String → String → Result String (StoredStatefulSet ℕ)
get_set false namespace name = err "not found"
get_set true namespace name =
    ok (record { name = name; namespace = namespace; match_labels = none; template = 0 })

abbrev pub update_set : Bool → StatefulSet String → Result String (StoredStatefulSet ℕ)
update_set false sts = err "not found"
update_set true sts = ok (stored sts)

-- A cluster that refuses updates of ConfigMaps, or not.
abbrev pub answering : Bool → Api
answering down = record {
  World = Cluster;
  Failure = String;
  describe = λ e. e;
  is_already_exists = λ e. e == "already exists";
  Quantity = String;
  parse_quantity = λ q. if q == "" then err "no quantity" else ok q;
  Template = ℕ;
  deep_equal = λ _ _. true;
  selector_from_set = λ _. "";
  meta_key = λ m. ok (join "/" m.namespace m.name);
  get_secret = λ namespace name w. (ok (named namespace name), w);
  create_stateful_set = λ _ sts w. create_set w.has_set sts w;
  get_stateful_set = λ namespace name w. (get_set w.has_set namespace name, w);
  update_stateful_set = λ _ sts w. (update_set w.has_set sts, w);
  list_pods = λ _ _ _ w. (ok w.pods, w);
  delete_pods = λ _ _ w. (ok tt, w);
  create_config_map = λ _ cm w. create w.leader cm w;
  update_config_map = λ _ cm w. update down cm w;
}

abbrev pub cluster : Api
cluster = answering false

pub created_leader :
    (o : Option String) (cm c : ConfigMap) (w : Cluster)
    → (create o cm w).0 ≡ ok c
    → (create o cm w).1.leader ≡ some (entry peer_file cm.contents)
created_leader none cm c w e = refl
created_leader (some _) cm c w e = cc

pub absent_leader :
    (o : Option String) (cm c : ConfigMap) (w : Cluster) → (create o cm w).0 ≡ ok c → o ≡ none
absent_leader none cm c w e = refl
absent_leader (some _) cm c w e = cc

pub refused_leader :
    (o : Option String) (cm : ConfigMap) (e : String) (w : Cluster)
    → (create o cm w).0 ≡ err e
    → (create o cm w).1.leader ≡ w.leader
refused_leader none cm e w r = cc
refused_leader (some _) cm e w r = refl

pub updated_leader :
    (b : Bool) (cm c : ConfigMap) (w : Cluster)
    → (update b cm w).0 ≡ ok c
    → (update b cm w).1.leader ≡ some (entry peer_file cm.contents)
updated_leader true cm c w e = cc
updated_leader false cm c w e = refl

abbrev pub server : PeerServer cluster
server = record {
  leader = λ w _. w.leader;
  leader-absent = λ _ cm c w _ e. absent_leader w.leader cm c w e;
  leader-create = λ _ cm c w _ e. created_leader w.leader cm c w e;
  leader-exists = λ _ cm x w e _. refused_leader w.leader cm x w e;
  leader-update = λ _ cm c w _ e. updated_leader false cm c w e;
  leader-list = λ _ _ _ w. refl;
}
