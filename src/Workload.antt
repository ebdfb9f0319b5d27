-- ===== src/Workload.antt =====
-- pkg/controller/v1beta2/stateful_sets.go: the StatefulSet of a Habitat. `base` is built first, and
-- each optional part of the specification adds to it; a Secret is fetched before it is mounted.
pub mod Args
pub mod Parts
pub mod Assembly
pub mod Mounted
pub mod Mounts
pub mod Names
pub mod Total
pub mod Frame
pub mod Owner
pub mod Reading
pub mod Flags
use habitat_operator.Base.{
  String, ◌<>◌, Option, none, some, List, ◌∷◌, Result, ok, err, pure, throw, panic, ◌>>=◌,
}
use habitat_operator.Types.{Habitat, V1beta2, PersistentStorage}
use habitat_operator.Kube.Objects.{StatefulSet}
use habitat_operator.Kube.Api.{Api}
use habitat_operator.State.{Act, State, text, try, check}
use habitat_operator.Ring.{find_string_submatch}
use habitat_operator.Workload.Parts.{
  base_stateful_set, mount_config_secret, mount_files_secret, mount_storage, claim_storage,
  mount_ring,
}

module _ (api : Api) where
  abbrev pub Sts : Type 0
  Sts = StatefulSet api.Quantity

  -- `if hs.Service.ConfigSecretName != nil`
  add_config_secret : Habitat → V1beta2 → Option String → Sts → Act api Sts
  add_config_secret h hs none sts = pure sts
  add_config_secret h hs (some name) sts = do
    r ← try api (api.get_secret h.meta.namespace name)
    secret ← check api r
    pure (mount_config_secret hs secret.name sts)

  -- `if hs.Service.FilesSecretName != nil`
  add_files_secret : Habitat → V1beta2 → Option String → Sts → Act api Sts
  add_files_secret h hs none sts = pure sts
  add_files_secret h hs (some name) sts = do
    r ← try api (api.get_secret h.meta.namespace name)
    files ← check api r
    pure (mount_files_secret hs files.name sts)

  parsed_size : Result api.Failure api.Quantity → Act api api.Quantity
  parsed_size (ok q) = pure q
  parsed_size (err e) = throw (text ("Could not parse PersistentStorage.Size: " <> api.describe e))

  -- `if ps := hs.PersistentStorage; ps != nil`
  add_storage : Habitat → Option PersistentStorage → Sts → Act api Sts
  add_storage h none sts = pure sts
  add_storage h (some ps) sts = do
    let mounted = mount_storage ps sts
    q ← parsed_size (api.parse_quantity ps.size)
    pure (claim_storage h ps q mounted)

  -- `ringParts[1]`, which panics where there is no group
  second : List String → Act api String
  second (whole ∷ group ∷ rest) = pure group
  second _ = panic

  -- `if ringSecretName := hs.Service.RingSecretName; ringSecretName != nil`. The Secret is looked
  -- up in the namespace `default`.
  add_ring : Option String → Sts → Act api Sts
  add_ring none sts = pure sts
  add_ring (some ring_secret_name) sts = do
    r ← try api (api.get_secret "default" ring_secret_name)
    s ← check api r
    ring_name ← second (find_string_submatch ring_secret_name)
    pure (mount_ring ring_secret_name s.name ring_name sts)

  with_spec : Habitat → V1beta2 → Act api Sts
  with_spec h hs = do
    a ← add_config_secret h hs hs.service.config_secret_name (base_stateful_set h hs)
    b ← add_files_secret h hs hs.service.files_secret_name a
    c ← add_storage h hs.persistent_storage b
    add_ring hs.service.ring_secret_name c

  abbrev with_pointer : Habitat → Option V1beta2 → Act api Sts
  with_pointer h none = panic
  with_pointer h (some hs) = with_spec h hs

  -- A nil `Spec.V1beta2` is dereferenced.
  unfoldable pub new_stateful_set : Habitat → Act api Sts
  unfolding with_spec add_config_secret add_files_secret add_storage parsed_size add_ring second
  new_stateful_set h = with_pointer h h.spec
