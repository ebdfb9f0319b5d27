-- ===== src/Workload/Total.antt =====
-- How `new_stateful_set` ends.
use habitat_operator.Base.{
  String, Option, none, some, Result, ok, err, returns, panics, ◌≡◌, ◌≢◌, refl, sym, ◌∙◌, ap, subst,
}
use habitat_operator.Base.Bind.{bind-ne-panics, ne-panics_of_returns, bind-of_returns}
use habitat_operator.Types.{Habitat, V1beta2, PersistentStorage}
use habitat_operator.Kube.Objects.{Meta}
use habitat_operator.Kube.Api.{Api}
use habitat_operator.State.{State}
use habitat_operator.State.Checked.{check-ne-panics}
use habitat_operator.Ring.{find_string_submatch}
use habitat_operator.Ring.Language.{IsRing, find_string_submatch_iff}
use habitat_operator.Validate.Laws.{HasRing, IsValidSpec}
use habitat_operator.Workload.Parts.{
  base_stateful_set, mount_config_secret, mount_files_secret, mount_storage, claim_storage,
  mount_ring,
}
use habitat_operator.Workload.{
  Sts, add_config_secret, add_files_secret, parsed_size, add_storage, second, add_ring, with_spec,
  with_pointer, new_stateful_set,
}

module _ (api : Api) where
  size-ne-panics :
      (r : Result api.Failure api.Quantity) (s : State api) → (parsed_size api r s).0 ≢ panics
  unfolding parsed_size
  size-ne-panics (ok q) s = λ p. cc
  size-ne-panics (err e) s = λ p. cc

-- A Secret can be fetched whatever the state of the cluster.
abbrev pub Available : Api → String → Option String → Type 0
Available api namespace none = Unit
Available api namespace (some name) =
    (w : api.World) → (m : Meta) × ((api.get_secret namespace name w).0 ≡ ok m)

abbrev pub HasSize : Api → Option PersistentStorage → Type 0
HasSize api none = Unit
HasSize api (some ps) = (q : api.Quantity) × (api.parse_quantity ps.size ≡ ok q)

module _ (api : Api) (h : Habitat) (hs : V1beta2) (sts : Sts api) (s : State api) where
  config-ne-panics : (o : Option String) → (add_config_secret api h hs o sts s).0 ≢ panics
  unfolding add_config_secret
  config-ne-panics none = λ p. cc
  config-ne-panics (some name) =
      bind-ne-panics _ _ _ (check-ne-panics api (api.get_secret h.meta.namespace name s.world).0 _)
        λ m p. cc

  files-ne-panics : (o : Option String) → (add_files_secret api h hs o sts s).0 ≢ panics
  unfolding add_files_secret
  files-ne-panics none = λ p. cc
  files-ne-panics (some name) =
      bind-ne-panics _ _ _ (check-ne-panics api (api.get_secret h.meta.namespace name s.world).0 _)
        λ m p. cc

  storage-ne-panics : (o : Option PersistentStorage) → (add_storage api h o sts s).0 ≢ panics
  unfolding add_storage
  storage-ne-panics none = λ p. cc
  storage-ne-panics (some ps) =
      bind-ne-panics _ _ _ (size-ne-panics api (api.parse_quantity ps.size) _) λ q p. cc

  -- The expression has matched, so the group is there.
  second-returns :
      (rsn g d : String)
      → IsRing rsn g d
      → g ≢ ""
      → (s : State api) → (second api (find_string_submatch rsn) s).0 ≡ returns g
  unfolding second
  second-returns rsn g d r ne s = rw ((find_string_submatch_iff rsn g).1 (ne, (d, r)))

  ring-ne-panics : (o : Option String) → HasRing o → (add_ring api o sts s).0 ≢ panics
  unfolding add_ring
  ring-ne-panics none v = λ p. cc
  ring-ne-panics (some rsn) (g, d, r, ne) =
      bind-ne-panics _ _ _ (check-ne-panics api (api.get_secret "default" rsn s.world).0 _) λ m.
        bind-ne-panics _ _ _ (ne-panics_of_returns _ g (second-returns rsn g d r ne _)) λ n p. cc

  config_total :
      (o : Option String)
      → Available api h.meta.namespace o
      → (t : Sts api) × ((add_config_secret api h hs o sts s).0 ≡ returns t)
  unfolding add_config_secret
  config_total none a = (sts, refl)
  config_total (some name) a = let (m, e) = a s.world in (mount_config_secret hs m.name sts, rw e)

  files_total :
      (o : Option String)
      → Available api h.meta.namespace o
      → (t : Sts api) × ((add_files_secret api h hs o sts s).0 ≡ returns t)
  unfolding add_files_secret
  files_total none a = (sts, refl)
  files_total (some name) a = let (m, e) = a s.world in (mount_files_secret hs m.name sts, rw e)

  storage_total :
      (o : Option PersistentStorage)
      → HasSize api o
      → (t : Sts api) × ((add_storage api h o sts s).0 ≡ returns t)
  unfolding add_storage parsed_size
  storage_total none a = (sts, refl)
  storage_total (some ps) (q, e) = (claim_storage h ps q (mount_storage ps sts), rw e)

  ring_total :
      (o : Option String)
      → HasRing o
      → Available api "default" o
      → (t : Sts api) × ((add_ring api o sts s).0 ≡ returns t)
  unfolding add_ring second
  ring_total none v a = (sts, refl)
  ring_total (some rsn) (g, d, r, ne) a =
      let (m, e) = a s.world in
      (mount_ring rsn m.name g sts, rw (e, (find_string_submatch_iff rsn g).1 (ne, (d, r))))

module _ (api : Api) (h : Habitat) (hs : V1beta2) (s : State api) where
  with_spec-ne-panics : IsValidSpec hs → (with_spec api h hs s).0 ≢ panics
  unfolding with_spec
  with_spec-ne-panics v =
      bind-ne-panics _ _ _ (config-ne-panics api h hs _ s hs.service.config_secret_name) λ a.
        bind-ne-panics _ _ _ (files-ne-panics api h hs a _ hs.service.files_secret_name) λ b.
          bind-ne-panics _ _ _ (storage-ne-panics api h hs b _ hs.persistent_storage)
            λ c. ring-ne-panics api h hs c _ hs.service.ring_secret_name v.ring

  -- Whatever the cluster answers, building the StatefulSet of a valid Habitat ends without a panic.
  pub new_stateful_set-ne-panics :
      h.spec ≡ some hs → IsValidSpec hs → (new_stateful_set api h s).0 ≢ panics
  unfolding new_stateful_set
  new_stateful_set-ne-panics spec v =
      subst (λ o. (with_pointer api h o s).0 ≢ panics) (sym spec) (with_spec-ne-panics v)

  with_spec_total :
      IsValidSpec hs
      → Available api h.meta.namespace hs.service.config_secret_name
      → Available api h.meta.namespace hs.service.files_secret_name
      → HasSize api hs.persistent_storage
      → Available api "default" hs.service.ring_secret_name
      → (sts : Sts api) × ((with_spec api h hs s).0 ≡ returns sts)
  unfolding with_spec
  with_spec_total v config files size ring =
      let first =
        add_config_secret api h hs hs.service.config_secret_name (base_stateful_set h hs) in
      let (a, ea) = config_total api h hs (base_stateful_set h hs) s _ config in
      let second = add_files_secret api h hs hs.service.files_secret_name a in
      let s1 = (first s).1 in
      let (b, eb) = files_total api h hs a s1 _ files in
      let third = add_storage api h hs.persistent_storage b in
      let s2 = (second s1).1 in
      let (c, ec) = storage_total api h hs b s2 _ size in
      let (d, ed) = ring_total api h hs c (third s2).1 _ v.ring ring in
      (
        d,
        ap (λ x. x.0)
              (bind-of_returns (first s).0 _ s1 a ea
                ∙ bind-of_returns (second s1).0 _ s2 b eb
                ∙ bind-of_returns (third s2).0 _ (third s2).1 c ec)
            ∙ ed,
      )

  -- If every Secret that a valid Habitat names can be fetched, the ring's from the namespace
  -- `default` and the others from the Habitat's, and the size of its storage parses, then the
  -- StatefulSet is returned.
  pub new_stateful_set_total :
      h.spec ≡ some hs
      → IsValidSpec hs
      → Available api h.meta.namespace hs.service.config_secret_name
      → Available api h.meta.namespace hs.service.files_secret_name
      → HasSize api hs.persistent_storage
      → Available api "default" hs.service.ring_secret_name
      → (sts : Sts api) × ((new_stateful_set api h s).0 ≡ returns sts)
  unfolding new_stateful_set
  new_stateful_set_total spec v config files size ring =
      subst (λ o. (sts : Sts api) × ((with_pointer api h o s).0 ≡ returns sts)) (sym spec)
        (with_spec_total v config files size ring)
