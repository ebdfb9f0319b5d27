-- ===== src/Workload/Assembly.antt =====
-- A StatefulSet that `new_stateful_set` returns is the base with the parts that the specification
-- asks for, in the source's order.
use habitat_operator.Base.{
  String, Option, none, some, List, [], ◌∷◌, Result, ok, err, returns, ◌≡◌, refl, ◌>>=◌, ap, ◌∙◌,
  subst,
}
use habitat_operator.Base.Bind.{returns-bind}
use habitat_operator.Types.{Habitat, V1beta2, PersistentStorage}
use habitat_operator.Kube.Objects.{StatefulSet}
use habitat_operator.Kube.Api.{Api}
use habitat_operator.State.{Act, State}
use habitat_operator.State.Checked.{checked_returns}
use habitat_operator.Ring.{find_string_submatch}
use habitat_operator.Workload.Parts.{
  base_stateful_set, mount_config_secret, mount_files_secret, mount_storage, claim_storage,
  mount_ring,
}
use habitat_operator.Workload.{
  Sts, add_config_secret, add_files_secret, parsed_size, add_storage, second, add_ring, with_spec,
  with_pointer, new_stateful_set,
}

-- What a part needs besides the specification's optional field: nothing where the field is nil.
abbrev pub Needs {ℓ κ} : {A : Type ℓ} → Option A → Type κ → Type κ
Needs none B = Unit
Needs (some _) B = B

-- The name of the ring's Secret, and the ring's name, which the expression finds.
abbrev pub RingNames : Option String → Type 0
RingNames none = Unit
RingNames (some rsn) =
    (secret ring_name : String) × (rest : List String) × (whole : String) × (find_string_submatch
        rsn
      ≡ whole ∷ ring_name ∷ rest)

module _ {Q : Type 0} where
  abbrev pub config_part :
      V1beta2 → (o : Option String) → Needs o String → StatefulSet Q → StatefulSet Q
  config_part hs none _ sts = sts
  config_part hs (some _) secret sts = mount_config_secret hs secret sts

  abbrev pub files_part :
      V1beta2 → (o : Option String) → Needs o String → StatefulSet Q → StatefulSet Q
  files_part hs none _ sts = sts
  files_part hs (some _) files sts = mount_files_secret hs files sts

  abbrev pub storage_part :
      Habitat → (o : Option PersistentStorage) → Needs o Q → StatefulSet Q → StatefulSet Q
  storage_part h none _ sts = sts
  storage_part h (some ps) q sts = claim_storage h ps q (mount_storage ps sts)

  abbrev pub ring_part : (o : Option String) → RingNames o → StatefulSet Q → StatefulSet Q
  ring_part none _ sts = sts
  ring_part (some rsn) n sts = mount_ring rsn n.0 n.1 sts

-- What the calls of `new_stateful_set` returned.
pub record Fetched (Q : Type 0) (hs : V1beta2) : Type 0 where
  pub config : Needs hs.service.config_secret_name String
  pub files : Needs hs.service.files_secret_name String
  pub storage : Needs hs.persistent_storage Q
  pub ring : RingNames hs.service.ring_secret_name

unfoldable pub assemble : {Q : Type 0} → Habitat → (hs : V1beta2) → Fetched Q hs → StatefulSet Q
assemble h hs f = ring_part hs.service.ring_secret_name f.ring (
    storage_part h hs.persistent_storage f.storage (
      files_part hs hs.service.files_secret_name f.files
        (config_part hs hs.service.config_secret_name f.config (base_stateful_set h hs))))

module _ (api : Api) where
  size_returns :
      {B : Type 0} (r : Result api.Failure api.Quantity) (k : api.Quantity → Act api B)
      (s : State api) (b : B)
      → ((parsed_size api r >>= k) s).0 ≡ returns b
      → (q : api.Quantity) × ((k q s).0 ≡ returns b)
  unfolding parsed_size
  size_returns (ok q) k s b e = (q, e)
  size_returns (err x) k s b e = cc

  second_returns :
      {B : Type 0} (l : List String) (k : String → Act api B) (s : State api) (b : B)
      → ((second api l >>= k) s).0 ≡ returns b
      → (whole group : String) × (rest : List String) × (l ≡ whole ∷ group ∷ rest)
        × ((k group s).0 ≡ returns b)
  unfolding second
  second_returns (whole ∷ group ∷ rest) k s b e = (whole, group, rest, refl, e)
  second_returns (whole ∷ []) k s b e = cc
  second_returns [] k s b e = cc

module _ (api : Api) (h : Habitat) (hs : V1beta2) (s : State api) (sts t : Sts api) where
  config_returns :
      (o : Option String)
      → (add_config_secret api h hs o sts s).0 ≡ returns t
      → (n : Needs o String) × (t ≡ config_part hs o n sts)
  unfolding add_config_secret
  config_returns none e = (tt, cc)
  config_returns (some name) e =
      let (m, _, f) =
        checked_returns api (api.get_secret h.meta.namespace name s.world).0 _ _ t e in
      (m.name, cc)

  files_returns :
      (o : Option String)
      → (add_files_secret api h hs o sts s).0 ≡ returns t
      → (n : Needs o String) × (t ≡ files_part hs o n sts)
  unfolding add_files_secret
  files_returns none e = (tt, cc)
  files_returns (some name) e =
      let (m, _, f) =
        checked_returns api (api.get_secret h.meta.namespace name s.world).0 _ _ t e in
      (m.name, cc)

  storage_returns :
      (o : Option PersistentStorage)
      → (add_storage api h o sts s).0 ≡ returns t
      → (n : Needs o api.Quantity) × (t ≡ storage_part h o n sts)
  unfolding add_storage
  storage_returns none e = (tt, cc)
  storage_returns (some ps) e =
      let (q, f) = size_returns api (api.parse_quantity ps.size) _ _ t e in (q, cc)

  ring_returns :
      (o : Option String)
      → (add_ring api o sts s).0 ≡ returns t
      → (n : RingNames o) × (t ≡ ring_part o n sts)
  unfolding add_ring
  ring_returns none e = (tt, cc)
  ring_returns (some rsn) e =
      let (m, _, f) = checked_returns api (api.get_secret "default" rsn s.world).0 _ _ t e in
      let (whole, group, rest, split, last) =
        second_returns api (find_string_submatch rsn) _ _ t f in
      ((m.name, group, rest, whole, split), cc)

module _ (api : Api) (h : Habitat) (hs : V1beta2) (s : State api) (t : Sts api) where
  with_spec_returns :
      (with_spec api h hs s).0 ≡ returns t → (f : Fetched api.Quantity hs) × (t ≡ assemble h hs f)
  unfolding with_spec assemble
  with_spec_returns e =
      let (a, ea, e1) =
        returns-bind
          (add_config_secret api h hs hs.service.config_secret_name (base_stateful_set h hs)) _ s t
          e in
      let (b, eb, e2) =
        returns-bind (add_files_secret api h hs hs.service.files_secret_name a) _ _ t e1 in
      let (c, ec, e3) = returns-bind (add_storage api h hs.persistent_storage b) _ _ t e2 in
      let (nc, pc) =
        config_returns api h hs s (base_stateful_set h hs) a hs.service.config_secret_name ea in
      let (nf, pf) = files_returns api h hs _ a b hs.service.files_secret_name eb in
      let (ns, ps) = storage_returns api h hs _ b c hs.persistent_storage ec in
      let (nr, pr) = ring_returns api h hs _ c t hs.service.ring_secret_name e3 in
      (
        record { config = nc; files = nf; storage = ns; ring = nr },
        pr
            ∙ ap (ring_part hs.service.ring_secret_name nr) (
                ps
                ∙ ap (storage_part h hs.persistent_storage ns)
                    (pf ∙ ap (files_part hs hs.service.files_secret_name nf) pc)),
      )

  pub new_stateful_set_returns :
      h.spec ≡ some hs
      → (new_stateful_set api h s).0 ≡ returns t
      → (f : Fetched api.Quantity hs) × (t ≡ assemble h hs f)
  unfolding new_stateful_set
  new_stateful_set_returns spec e =
      with_spec_returns (subst (λ o. (with_pointer api h o s).0 ≡ returns t) spec e)
