-- ===== src/Tests/Peers.antt =====
-- The theorems on the peers' ConfigMap, in a small cluster.
use habitat_operator.Base.{
  ok, err, Option, none, String, ◌==◌, Bool, true, false, some, List, [], ◌∷◌, ◌≡◌, refl, returns,
  fails, subst, ap, ◌∙◌,
}
use habitat_operator.Kube.Objects.{Meta, Pod, ConfigMap, StatefulSet}
use habitat_operator.Labels.{new_config_map, peer_file, config_map_name}
use habitat_operator.Peer.Server.{IsSynced}
use habitat_operator.State.{Object, State, Found, missing, found, config_map, library}
use habitat_operator.Peer.{handle_config_map, get_running_pods, is_running, entry}
use habitat_operator.Peer.Total.{IsCurrent}
use habitat_operator.Conform.Server.{ServesPeers}
use habitat_operator.Peer.Leader.{handle_config_map_elects}
use habitat_operator.Peer.Election.{IsElected}
use habitat_operator.Peer.Safety.{IsWritable}
use habitat_operator.Types.{Habitat}
use habitat_operator.Peer.Retry.{Exists, retry_after_failed_update}
use habitat_operator.Kube.Api.{Api}
use habitat_operator.Tests.Cluster.{Cluster, cluster, answering, create, create_set, server}
use habitat_operator.Tests.Habitats.{db, state_of, pod_at}

-- The ConfigMap of the last leader, in the cluster and in the cache.
abbrev pub old_leader : ConfigMap
old_leader = new_config_map "10.0.0.6" db

abbrev pub held : Bool → Found String
held true = found (config_map old_leader)
held false = missing

abbrev pub cached : String → Found String
cached k = held (k == "lab/peer-watch-file")

abbrev pub led_by : String → (down : Bool) → State (answering down)
led_by ip down =
    record (state_of down
      (record { leader = some "10.0.0.6"; pods = pod_at ip ∷ []; has_set = false })) {
        config_maps = cached;
      }

old_is : (b : Bool) (cm : ConfigMap) → held b ≡ found (config_map cm) → old_leader ≡ cm
old_is true cm e = cc
old_is false cm e = cc

synced : IsSynced server (led_by "10.0.0.7" false) "lab"
unfolding new_config_map
synced k cm e ip h ns key =
    subst
      (λ (c : ConfigMap).
        (c.meta.name ≡ config_map_name)
        × (c.meta.namespace ≡ "lab")
        × (some "10.0.0.6" ≡ some (entry peer_file c.contents)))
      (old_is (k == "lab/peer-watch-file") cm e) (refl, refl, refl)

replaced : (handle_config_map cluster db (led_by "10.0.0.7" false)).0 ≡ returns tt
unfolding handle_config_map new_config_map
replaced = refl

abbrev key : String
key = "lab/peer-watch-file"

exists :
    (ip : String) (down : Bool)
    → Exists (answering down) db (pod_at ip) [] key (led_by ip down) (led_by ip down).world
unfolding new_config_map
exists ip down = record {
  middle = (led_by ip down).world;
  listed = refl;
  error = "already exists";
  refused = refl;
  exists = refl;
  key = refl;
}

abbrev pub refusing : Api
refusing = answering true

abbrev stuck : State refusing
stuck = (handle_config_map refusing db (led_by "10.0.0.7" true)).1

Exists-again : Exists refusing db (pod_at "10.0.0.7") [] key stuck (led_by "10.0.0.7" true).world
unfolding handle_config_map new_config_map
Exists-again = record {
  middle = (led_by "10.0.0.7" true).world;
  listed = refl;
  error = "already exists";
  refused = refl;
  exists = refl;
  key = refl;
}

retry_after_failed_update_example :
    ((handle_config_map refusing db (led_by "10.0.0.7" true)).0 ≡ fails (library "conflict"))
    × (handle_config_map refusing db stuck
        ≡ (returns tt, record stuck { world = (led_by "10.0.0.7" true).world }))
unfolding new_config_map is_running
retry_after_failed_update_example =
    let w = (led_by "10.0.0.7" true).world in
    retry_after_failed_update refusing db (pod_at "10.0.0.7") [] key old_leader
      (led_by "10.0.0.7" true) w w w ((peer_file, "10.0.0.6") ∷ []) "conflict"
      (exists "10.0.0.7" true) refl refl refl (λ _. refl) Exists-again

-- The meta data of the server's ConfigMap; there is one version of it.
abbrev pub version : Option String → Option Meta
version none = none
version (some _) = some old_leader.meta

pub absent :
    (o : Option String) (cm : ConfigMap) (w : Cluster)
    → version o ≡ none
    → (c : ConfigMap) × ((create o cm w).0 ≡ ok c)
absent none cm w e = (cm, refl)
absent (some _) cm w e = cc

pub present :
    (o : Option String) (cm : ConfigMap) (m : Meta) (w : Cluster)
    → version o ≡ some m
    → w.leader ≡ o
    → (e : String) × ((create o cm w).0 ≡ err e)
      × ((e == "already exists") ≡ true)
      × (version (create o cm w).1.leader ≡ some m)
present none cm m w e same = cc
present (some _) cm m w e same = ("already exists", refl, refl, ap version same ∙ e)

pub set_version :
    (b : Bool) (sts : StatefulSet String) (w : Cluster)
    → version (create_set b sts w).1.leader ≡ version w.leader
set_version false sts w = refl
set_version true sts w = refl

abbrev pub serves : ServesPeers cluster db
serves = record {
  held = λ w. version w.leader;
  listed = λ _ _ w. (w.pods, refl, refl);
  created = λ ip w e. absent w.leader (new_config_map ip db) w e;
  refused = λ ip m w e. present w.leader (new_config_map ip db) m w e refl;
  updated = λ cm w _. (cm, refl);
  after_secret = λ _ _ w. refl;
  after_create = λ _ sts w. set_version w.has_set sts w;
  after_get = λ _ _ w. refl;
  after_update = λ _ _ w. refl;
  after_delete = λ _ _ w. refl;
}

pub led_by-IsCurrent : (ip : String) → IsCurrent serves (led_by ip false)
unfolding new_config_map
led_by-IsCurrent ip m ip' e = (
  "lab/peer-watch-file",
  old_leader,
  (peer_file, "10.0.0.6") ∷ [],
  refl,
  refl,
  refl,
  same (some old_leader.meta) m e,
)
  where
    same : (o : Option Meta) (m : Meta) → some old_leader.meta ≡ some m → old_leader.meta ≡ m
    same o m e = cc

handle_config_map_elects_example :
    (pods : List Pod) × ((get_running_pods cluster "lab" (led_by "10.0.0.7" false)).0
      ≡ returns pods)
    × IsElected pods
        (some "10.0.0.6")
        (handle_config_map cluster db (led_by "10.0.0.7" false)).1.world.leader
handle_config_map_elects_example =
    handle_config_map_elects cluster server db (led_by "10.0.0.7" false) synced replaced

held_writable :
    (b : Bool) (o : Object)
    → held b ≡ found o
    → (cm : ConfigMap) × (m : List (String × String)) × (o ≡ config_map cm) × (cm.contents ≡ some m)
unfolding new_config_map
held_writable true o e = (old_leader, (peer_file, "10.0.0.6") ∷ [], cc, refl)
held_writable false o e = cc

pub cached-IsWritable : (down : Bool) (h : Habitat) → IsWritable (answering down) h cached
cached-IsWritable down h ip k o keyed there = held_writable (k == "lab/peer-watch-file") o there
