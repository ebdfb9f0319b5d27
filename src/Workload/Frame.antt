-- ===== src/Workload/Frame.antt =====
-- What `new_stateful_set` leaves as it is.
use habitat_operator.Base.{
  String, Option, none, some, List, [], ◌∷◌, Result, ok, err, ◌≡◌, refl, pure, ◌>>=◌,
}
use habitat_operator.Types.{Habitat, V1beta2, PersistentStorage}
use habitat_operator.Kube.Objects.{Meta}
use habitat_operator.Kube.Api.{Api}
use habitat_operator.State.{Act, State}
use habitat_operator.State.Keeps.{Keeps, Keeps-bind, Keeps-call}
use habitat_operator.Ring.{find_string_submatch}
use habitat_operator.Workload.Parts.{
  base_stateful_set, mount_config_secret, mount_files_secret, mount_storage, claim_storage,
  mount_ring,
}
use habitat_operator.Workload.{
  Sts, add_config_secret, add_files_secret, parsed_size, add_storage, second, add_ring, with_spec,
  with_pointer, new_stateful_set,
}

module _ (api : Api) {X : Type 0} (f : State api → X)
    (secrets : (ns name : String) (s : State api)
      → f (record s { world = (api.get_secret ns name s.world).1 }) ≡ f s) where
  config-Keeps :
      (h : Habitat) (hs : V1beta2) (o : Option String) (sts : Sts api)
      → Keeps f (add_config_secret api h hs o sts)
  unfolding add_config_secret
  config-Keeps h hs none sts = λ s. refl
  config-Keeps h hs (some name) sts =
      Keeps-call api f (api.get_secret h.meta.namespace name)
        (λ m. pure (mount_config_secret hs m.name sts)) (secrets _ _) λ m s. refl

  files-Keeps :
      (h : Habitat) (hs : V1beta2) (o : Option String) (sts : Sts api)
      → Keeps f (add_files_secret api h hs o sts)
  unfolding add_files_secret
  files-Keeps h hs none sts = λ s. refl
  files-Keeps h hs (some name) sts =
      Keeps-call api f (api.get_secret h.meta.namespace name)
        (λ m. pure (mount_files_secret hs m.name sts)) (secrets _ _) λ m s. refl

  storage-Keeps :
      (h : Habitat) (o : Option PersistentStorage) (sts : Sts api)
      → Keeps f (add_storage api h o sts)
  unfolding add_storage parsed_size
  storage-Keeps h none sts = λ s. refl
  storage-Keeps h (some ps) sts = λ s. sized s (api.parse_quantity ps.size)
    where
      sized :
          (s : State api) (r : Result api.Failure api.Quantity)
          → f ((parsed_size api r >>= λ q. pure (claim_storage h ps q (mount_storage ps sts))) s).1
            ≡ f s
      sized s (ok q) = refl
      sized s (err e) = refl

  ring-Keeps : (o : Option String) (sts : Sts api) → Keeps f (add_ring api o sts)
  unfolding add_ring second
  ring-Keeps none sts = λ s. refl
  ring-Keeps (some rsn) sts =
      Keeps-call api f (api.get_secret "default" rsn)
        (λ m. second api (find_string_submatch rsn) >>= λ g. pure (mount_ring rsn m.name g sts))
        (secrets _ _) λ m s. grouped m s (find_string_submatch rsn)
    where
      grouped :
          (m : Meta) (s : State api) (l : List String)
          → f ((second api l >>= λ g. pure (mount_ring rsn m.name g sts)) s).1 ≡ f s
      grouped m s (whole ∷ group ∷ rest) = refl
      grouped m s (whole ∷ []) = refl
      grouped m s [] = refl

  spec-Keeps : (h : Habitat) (hs : V1beta2) → Keeps f (with_spec api h hs)
  unfolding with_spec
  spec-Keeps h hs =
      let ring : Sts api → Act api (Sts api) = add_ring api hs.service.ring_secret_name in
      let storage : Sts api → Act api (Sts api) =
        λ b. add_storage api h hs.persistent_storage b >>= ring in
      let files : Sts api → Act api (Sts api) =
        λ a. add_files_secret api h hs hs.service.files_secret_name a >>= storage in
      Keeps-bind f
        (add_config_secret api h hs hs.service.config_secret_name (base_stateful_set h hs)) files
        (config-Keeps h hs hs.service.config_secret_name (base_stateful_set h hs))
        λ a.
          Keeps-bind f (add_files_secret api h hs hs.service.files_secret_name a) storage
            (files-Keeps h hs hs.service.files_secret_name a)
            λ b.
              Keeps-bind f (add_storage api h hs.persistent_storage b) ring
                (storage-Keeps h hs.persistent_storage b) (ring-Keeps hs.service.ring_secret_name)

  pub new_stateful_set-Keeps : (h : Habitat) → Keeps f (new_stateful_set api h)
  unfolding new_stateful_set
  new_stateful_set-Keeps h = pointed h.spec
    where
      pointed : (o : Option V1beta2) → Keeps f (with_pointer api h o)
      pointed none = λ s. refl
      pointed (some hs) = spec-Keeps h hs
