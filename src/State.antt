-- ===== src/State.antt =====
-- pkg/controller/v1beta2/controller.go: the state that `HabitatController` reads and changes. The
-- work queue and the event recorder belong to client-go: the state keeps the calls made on them.
pub mod Checked
pub mod Keeps
use habitat_operator.Base.{String, List, ◌∷◌, [], ◌++◌, Result, ok, err, Exec, returns, fails}
use habitat_operator.Types.{Habitat}
use habitat_operator.Kube.Objects.{Meta, Pod, ConfigMap}
use habitat_operator.Kube.Api.{Api}

-- What an informer hands over or a cache holds: an `interface{}` with the types that the code
-- asserts. Of a StatefulSet the handlers read the meta data. A deletion that the informer missed
-- comes as a tombstone, `cache.DeletedFinalStateUnknown`.
pub data Object : Type 0 where
  habitat : Habitat → Object
  pod : Pod → Object
  stateful_set : Meta → Object
  config_map : ConfigMap → Object
  tombstone : String → Object → Object
  other : Object

-- The errors that the controller's own functions return.
pub data Error (F : Type 0) : Type 0 where
  library : F → Error F
  key_not_found : String → Error F
  text : String → Error F
  unknown_object : Object → Error F

-- `GetStore().GetByKey(key)`
pub data Found (F : Type 0) : Type 0 where
  failed : F → Found F
  missing : Found F
  found : Object → Found F

-- Calls on the work queue.
pub data QueueCall : Type 0 where
  add : String → QueueCall
  add_rate_limited : String → QueueCall
  forget : String → QueueCall
  done : String → QueueCall

pub data EventType : Type 0 where
  normal warning : EventType

-- Calls on the recorder, about the object with these meta data: type, reason, message. The message
-- of `Eventf` is a format.
pub data EventCall : Type 0 where
  event : Meta → EventType → String → String → EventCall
  eventf : Meta → EventType → String → String → EventCall

pub record State (api : Api) : Type 0 where
  pub world : api.World
  -- The informers' caches, by key.
  pub habitats : String → Found api.Failure
  pub config_maps : String → Found api.Failure
  pub events : List EventCall
  pub queue : List QueueCall

module _ (api : Api) where
  abbrev pub Act : Type 0 → Type 0
  Act A = Exec (Error api.Failure) (State api) A

  -- `v, err := call`, the error kept as a value
  abbrev pub try :
      {A : Type 0} → (api.World → Result api.Failure A × api.World) → Act (Result api.Failure A)
  try f s = let r = f s.world in (returns r.0, record s { world = r.1 })

  -- `if err != nil { return err }`, for an error of a library
  abbrev pub check : {A : Type 0} → Result api.Failure A → Act A
  check (ok a) s = (returns a, s)
  check (err e) s = (fails (library e), s)

  abbrev pub record_event : EventCall → Act (Unit {0})
  record_event e s = (returns tt, record s { events = s.events ++ (e ∷ []) })

  abbrev pub queue_call : QueueCall → Act (Unit {0})
  queue_call q s = (returns tt, record s { queue = s.queue ++ (q ∷ []) })
