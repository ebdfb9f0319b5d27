-- ===== src/Lib.antt =====
-- The Habitat operator, a Kubernetes controller that runs the Habitats that users declare. The
-- model follows pkg/apis/habitat/v1beta1 (types.go, zz_generated.deepcopy.go),
-- pkg/controller/v1beta2 (controller.go, stateful_sets.go, utils.go),
-- pkg/client/informers/externalversions, the clients of pkg/client/clientset/versioned, and
-- cmd/habitat-operator/main.go.
--
-- Informers tell the controller what has changed; its handlers find the Habitat concerned and put
-- its key in a work queue. A worker takes keys off the queue and reconciles each: `conform` looks
-- the Habitat up in the informer's cache, validates it, builds its StatefulSet, creates or updates
-- that, and keeps the address of one running pod, the leader, in a ConfigMap that the pods watch.
--
--  - Base: Go's results and panics, the actions that calls are (Base/Calls), lemmas on them
--    (Base/Bind), association lists (Base/Text), lists, and Go's conversion to 32 bits
--    (Base/Int).
--  - Kube/Objects: the Kubernetes objects, with the fields that the controller sets or reads.
--    Kube/Api: the API server and the libraries' functions, which the whole model takes as a
--    parameter; nothing is assumed of them but where a theorem says so.
--  - Memory: a heap, and commands on it, for the deep copies and the client set.
--  - Types: `Habitat` and the types below it. Types/Equality: `reflect.DeepEqual` on its
--    specification, which follows pointers and tells a nil slice from an empty one.
--  - Ring: `ringRegexp.FindStringSubmatch`, as a matcher on texts. Ring/Language: the language
--    of the expression.
--  - State: `HabitatController`'s caches, and the calls on its recorder and its queue, in
--    order. State/Checked and State/Keeps: how actions on it go on, and what they leave as it
--    is.
--  - Validate: `validateCustomObject` and `checkCustomVersionMatch`. Validate/Laws: what they
--    accept.
--  - Labels: `habitatKeyFromLabeledResource`, `isHabitatObject`, `newConfigMap`.
--  - Workload: `newStatefulSet`. Workload/Args has the supervisor's arguments, Workload/Parts
--    what each optional field adds. A result is the base with these parts (Workload/Assembly),
--    from which follow the mounts, names, flags, owner and frame in the files called so;
--    Workload/Reading reads the arguments back; Workload/Total is on when there is a result.
--  - Peer: `getRunningPods`, `writeLeaderIP`, `findConfigMapInCache`, `handleConfigMap`. The
--    objects of the cache are shared: a write to the ConfigMap that the cache returned changes
--    the cache. Peer/Server: what the server promises about the ConfigMap, and when the cache
--    is in step with it. Peer/Lookup: what the code reads of it. Peer/Election: the abstract
--    election. Peer/Changes and Peer/Leader: `handleConfigMap` as such an election. Peer/Retry,
--    Peer/Total, Peer/Safety, Peer/Frame: what else follows.
--  - Conform: `conform` and `deleteStatefulSetPods`, with the events that they record.
--    Conform/Reconciles and Conform/Steps: the abstract step that it takes. Conform/Server: a
--    server that serves. Conform/Total: when it succeeds, and what it refuses. Conform/Safety:
--    when it does not panic. Conform/Frame: what it leaves as it is.
--  - Handlers: the handlers of Habitats, ConfigMaps, Pods and StatefulSets, and `enqueue`.
--    Handlers/Eligible, Handlers/Adds, Handlers/Wakes and Handlers/Broadcast: what they put in
--    the queue.
--  - Worker: `processNextItem` and `worker`. Worker/Laws: its calls on the queue.
--    Worker/Responds: the way of a change from its handler to the end of its reconciliation.
--  - Registration: `cacheHabitats`, `cacheConfigMaps`, `cacheStatefulSets` and `watchPods`:
--    which handlers each informer calls; and `listOptions`. Registration/Delivery: what the
--    calls put in the queue.
--  - System: the informers, the work queue and the workers as one step relation. System/Queue:
--    what client-go's work queue promises. System/Marks: which key a worker holds.
--    System/Owners, System/Exclusive and System/Kept: which worker has which key, and what
--    becomes of the keys that wait.
--  - Setup: `CreateCRD`, and `createCRD` of cmd/habitat-operator/main.go, on a state of their
--    own. Setup/Laws: how they leave the cluster.
--  - Informers: the factory of shared informers. Informers/Started and Informers/Shared: what
--    it runs, and how often. Informers/Habitats: the way to the informer of Habitats.
--    Informers/Races: the two orders in which the controller and `Start` can come.
--  - Lifecycle: `New`, and `Run` as a step relation. Lifecycle/Group: what its wait group
--    counts. Lifecycle/Ends: how it returns. Lifecycle/Complete: what `New` asks for.
--  - Command: `run` of cmd/habitat-operator/main.go up to the start of the controller, with
--    `v1beta2`. Command/Startup: what it then has. Command/Shutdown: the process as a step
--    relation over that of `Run`, and its exit codes.
--  - Copies: the deep copies. Copies/Grows: what a deep copy is. Copies/Copier: the copies of
--    pointers and slices. Copies/Views: what the structs in memory read as. Copies/Structs,
--    Copies/Habitats, Copies/Correct: the copies of each struct, and of pointers to them.
--  - Client: the requests of the client of Habitats (pkg/client/clientset/versioned/typed), and
--    the actions of the fake one. Client/Agrees: the two compared. Client/Replies: what the
--    methods return.
--  - Clientset: `NewForConfig`, `NewForConfigOrDie` and `New` of pkg/client/clientset/versioned
--    (clientset.go, typed/habitat/v1beta1/habitat_client.go), on a heap. Clientset/Sharing:
--    what the first makes, and what it leaves as it is. Clientset/OrDie: the second.
--  - Listers: the listers of Habitats (pkg/client/listers). Listers/Keys: the keys that they
--    read.
--  - Tests: a small cluster, a Habitat with every optional field, and the theorems at them.
--
-- Every loop of the program runs over a list, so no fuel is needed, but for two: `worker`, which
-- has no bound of its own, runs over what the queue hands out, and the poll of `CreateCRD` takes
-- the number of its rounds, which the timer of the library decides, as an argument; the theorems
-- hold for every number. Goroutines are steps: those of `Run` and of the process are interleaved
-- in any order. The integers of a resource are ℤ, and the one conversion to a machine integer
-- keeps its wrap-around; periods and exit codes are natural numbers.
--
-- A pointer is an Option where the code tests it for nil, and a nil dereference or a write to a
-- nil map is a panic; in the deep copies it is an address of a heap. Maps that are only read or
-- built are association lists, and a loop over one takes its entries in the order of the list; the
-- data of a ConfigMap tells a nil map from an empty one. Log lines, JSON and type meta data are
-- left out.
--
-- In System a handler's calls on the queue are made in one step, since they only add keys, and a
-- worker's are made one by one. What the handlers and `conform` read and change besides is any
-- state. Time passes for delayed keys in a step of its own. In `Run`, a worker ends only when the
-- queue is shut down, since the queue holds only texts, and a panic of a worker ends the process.
--
-- Not modelled: how informers get their events; the calls of the cluster by one worker between
-- those of another; the parsing of flags; how the client's requests are sent and its replies
-- decoded; the fake client set, which wires client-go's fakes together; vendored libraries, which
-- are parameters.
pub mod Base
pub mod Kube
pub mod Memory
pub mod Types
pub mod Ring
pub mod State
pub mod Labels
pub mod Workload
pub mod Peer
pub mod Conform
pub mod Handlers
pub mod Worker
pub mod Registration
pub mod System
pub mod Setup
pub mod Informers
pub mod Lifecycle
pub mod Copies
pub mod Client
pub mod Clientset
pub mod Listers
pub mod Command
pub mod Validate
mod Tests
