-- ===== src/Workload/Owner.antt =====
-- Whose pods a built StatefulSet makes, and how many.
use habitat_operator.Base.{
  String, join, eq_iff, true, Option, none, some, [], ◌∷◌, ok, returns, ◌≡◌, ◌≢◌, refl, sym, ◌∙◌,
  ap, subst, arith, lookup, All,
}
use habitat_operator.Base.Int.{IsInt32, int32, low32, int32-IsInt32, low32-int32}
use habitat_operator.Types.{
  Habitat, V1beta2, PersistentStorage, habitat_label, habitat_name_label, topology_label,
  habitat_topology_label,
}
use habitat_operator.Workload.Args.{effective_topology}
use habitat_operator.Kube.Objects.{Meta, Labels, StatefulSet}
use habitat_operator.Kube.Api.{Api}
use habitat_operator.State.{State}
use habitat_operator.Labels.{habitat_key_from_labeled_resource, is_habitat_object}
use habitat_operator.Workload.Parts.{
  base_stateful_set, mount_config_secret, mount_files_secret, mount_storage, claim_storage,
  mount_ring,
}
use habitat_operator.Workload.Assembly.{
  Needs, RingNames, Fetched, config_part, files_part, storage_part, ring_part, assemble,
  new_stateful_set_returns,
}
use habitat_operator.Workload.{Sts, new_stateful_set}

-- What the optional parts leave as it is.
record Keeps {Q : Type 0} (old new : StatefulSet Q) : Type 0 where
  selector : new.spec.selector ≡ old.spec.selector
  labels : new.spec.template.labels ≡ old.spec.template.labels
  replicas : new.spec.replicas ≡ old.spec.replicas
  meta : new.meta ≡ old.meta

module _ {Q : Type 0} (h : Habitat) (hs : V1beta2) where
  config-Keeps :
      (o : Option String) (n : Needs o String) (sts : StatefulSet Q)
      → Keeps sts (config_part hs o n sts)
  unfolding mount_config_secret
  config-Keeps none n sts = record { selector = refl; labels = refl; replicas = refl; meta = refl }
  config-Keeps (some _) n sts = record {
    selector = refl;
    labels = refl;
    replicas = refl;
    meta = refl;
  }

  files-Keeps :
      (o : Option String) (n : Needs o String) (sts : StatefulSet Q)
      → Keeps sts (files_part hs o n sts)
  unfolding mount_files_secret
  files-Keeps none n sts = record { selector = refl; labels = refl; replicas = refl; meta = refl }
  files-Keeps (some _) n sts = record {
    selector = refl;
    labels = refl;
    replicas = refl;
    meta = refl;
  }

  storage-Keeps :
      (o : Option PersistentStorage) (n : Needs o Q) (sts : StatefulSet Q)
      → Keeps sts (storage_part h o n sts)
  unfolding claim_storage mount_storage
  storage-Keeps none n sts = record { selector = refl; labels = refl; replicas = refl; meta = refl }
  storage-Keeps (some _) n sts = record {
    selector = refl;
    labels = refl;
    replicas = refl;
    meta = refl;
  }

  ring-Keeps :
      (o : Option String) (n : RingNames o) (sts : StatefulSet Q) → Keeps sts (ring_part o n sts)
  unfolding mount_ring
  ring-Keeps none n sts = record { selector = refl; labels = refl; replicas = refl; meta = refl }
  ring-Keeps (some _) n sts = record {
    selector = refl;
    labels = refl;
    replicas = refl;
    meta = refl;
  }

  Keeps-trans : {a b c : StatefulSet Q} → Keeps a b → Keeps b c → Keeps a c
  Keeps-trans p q = record {
    selector = q.selector ∙ p.selector;
    labels = q.labels ∙ p.labels;
    replicas = q.replicas ∙ p.replicas;
    meta = q.meta ∙ p.meta;
  }

  assemble-Keeps : (f : Fetched Q hs) → Keeps (base_stateful_set h hs) (assemble h hs f)
  unfolding assemble
  assemble-Keeps f = Keeps-trans (config-Keeps hs.service.config_secret_name f.config _) (
      Keeps-trans (files-Keeps hs.service.files_secret_name f.files _) (
        Keeps-trans (storage-Keeps hs.persistent_storage f.storage _)
          (ring-Keeps hs.service.ring_secret_name f.ring _)))

-- client-go keys an object by its namespace and its name.
abbrev pub KeysByName : Api → Type 0
KeysByName api = (m : Meta) → m.namespace ≢ "" → api.meta_key m ≡ ok (join "/" m.namespace m.name)

-- Every label that a selector asks for.
abbrev pub Selects : Labels → Labels → Type 0
Selects selector labels = All (λ l. lookup l.0 labels ≡ some l.1) selector

module _ (pod : Meta) (name t : String)
    (labels : Selects
      ((habitat_label, "true")
        ∷ (habitat_name_label, name)
        ∷ (topology_label, t)
        ∷ (habitat_topology_label, t)
        ∷ [])
      pod.labels) where
  labelled_habitat : is_habitat_object pod ≡ true
  unfolding is_habitat_object
  labelled_habitat = rw (labels.0) refl

  labelled_selected : Selects ((habitat_name_label, name) ∷ []) pod.labels
  labelled_selected = (labels.1.0, tt)

  labelled_key :
      name ≢ "" → habitat_key_from_labeled_resource pod ≡ ok (join "/" pod.namespace name)
  unfolding habitat_key_from_labeled_resource
  labelled_key ne =
      rw (labels.1.0, habitat_key_from_labeled_resource) (ground (arith, eq_iff name ""))

-- A pod with the labels of the template, and perhaps more, in the Habitat's namespace, is a pod of Habitat's, is
-- selected by the StatefulSet, and its labels lead to the key under which the Habitat is cached,
-- the one that is put in the queue.
pub new_stateful_set-key :
    (api : Api) (h : Habitat) (hs : V1beta2) (s : State api) (sts : Sts api) (pod : Meta)
    → KeysByName api
    → h.spec ≡ some hs
    → h.meta.namespace ≢ ""
    → h.meta.name ≢ ""
    → (new_stateful_set api h s).0 ≡ returns sts
    → Selects sts.spec.template.labels pod.labels
    → pod.namespace ≡ h.meta.namespace
    → (is_habitat_object pod ≡ true)
      × Selects sts.spec.selector pod.labels
      × ((key : String) × (habitat_key_from_labeled_resource pod ≡ ok key)
          × (api.meta_key h.meta ≡ ok key))
unfolding base_stateful_set
new_stateful_set-key api h hs s sts pod keys spec ns name e labels namespace =
    let (f, p) = new_stateful_set_returns api h hs s sts spec e in
    let k = assemble-Keeps h hs f in
    let t = effective_topology hs.service.topology in
    let l =
      subst (λ x. Selects x pod.labels) (ap (λ (t : Sts api). t.spec.template.labels) p ∙ k.labels)
        labels in
    let selector = ap (λ (t : Sts api). t.spec.selector) p ∙ k.selector in
    (
      labelled_habitat pod h.meta.name t l,
      subst (λ x. Selects x pod.labels) (sym selector) (labelled_selected pod h.meta.name t l),
      (
        join "/" h.meta.namespace h.meta.name,
        labelled_key pod h.meta.name t l name ∙ ap (λ n. ok (join "/" n h.meta.name)) namespace,
        keys h.meta ns,
      ),
    )

-- The number of replicas is the 32-bit integer with the same low 32 bits as the count of the
-- specification.
pub new_stateful_set-replicas :
    (api : Api) (h : Habitat) (hs : V1beta2) (s : State api) (sts : Sts api)
    → h.spec ≡ some hs
    → (new_stateful_set api h s).0 ≡ returns sts
    → IsInt32 sts.spec.replicas × (low32 sts.spec.replicas ≡ low32 hs.count)
unfolding base_stateful_set
new_stateful_set-replicas api h hs s sts spec e =
    let (f, p) = new_stateful_set_returns api h hs s sts spec e in
    let k = assemble-Keeps h hs f in
    let r : sts.spec.replicas ≡ int32 hs.count =
      ap (λ (t : Sts api). t.spec.replicas) p ∙ k.replicas in
    (subst IsInt32 (sym r) (int32-IsInt32 hs.count), ap low32 r ∙ low32-int32 hs.count)
