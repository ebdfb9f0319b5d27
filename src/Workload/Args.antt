-- ===== src/Workload/Args.antt =====
-- pkg/controller/v1beta2/stateful_sets.go: the arguments of the Habitat supervisor.
use habitat_operator.Base.{
  String, ◌<>◌, join, ◌==◌, Option, none, some, List, [], ◌∷◌, ◌++◌, if◌then◌else◌,
}
use habitat_operator.Types.{Service, Bind, Topology, topology_standalone, topology_leader, elements}
use habitat_operator.Labels.{peer_filename}

abbrev pub config_map_dir : String
config_map_dir = "/habitat-operator"

-- `habArgs = append(habArgs, flag, *p)` where the pointer is not nil
abbrev pub optional_flag : String → Option String → List String → List String
optional_flag flag none args = args
optional_flag flag (some v) args = args ++ (flag ∷ v ∷ [])

-- The topology that labels the pods: leader if the service says so, and standalone otherwise.
unfoldable pub effective_topology : Topology → Topology
effective_topology t = if t == topology_leader then topology_leader else topology_standalone

abbrev pub peer_path : String
peer_path = join "/" config_map_dir peer_filename

-- `fmt.Sprintf("%s:%s.%s", bind.Name, bind.Service, bind.Group)`
abbrev pub bind_arg : Bind → String
bind_arg b = b.name <> (":" <> (b.service <> ("." <> b.group)))

-- the loop over `hs.Service.Bind`
unfoldable pub bind_flags : List Bind → List String → List String
bind_flags [] args = args
bind_flags (b ∷ bs) args = bind_flags bs (args ++ ("--bind" ∷ bind_arg b ∷ []))

unfoldable pub hab_args : Service → List String
unfolding effective_topology bind_flags
hab_args s =
    let group = optional_flag "--group" s.group [] in
    let channel = optional_flag "--channel" s.channel group in
    let topology = effective_topology s.topology in
    bind_flags (elements s.bind)
      (channel ++ ("--topology" ∷ topology ∷ "--peer-watch-file" ∷ peer_path ∷ []))
