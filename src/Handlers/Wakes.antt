-- ===== src/Handlers/Wakes.antt =====
-- Which notifications lead to a Habitat's key in the queue.
use habitat_operator.Base.{
  subst, String, Bool, some, List, [], ◌∷◌, Result, ok, returns, ◌≡◌, ◌≢◌, ◌∙◌, ap, ◌⊎◌, inl, inr,
}
use mathlib.Core.Logic.{if_pos, if_neg, ite}
use habitat_operator.Types.{Habitat, V1beta2}
use habitat_operator.Types.Equality.{spec_discrete}
use habitat_operator.Kube.Objects.{Meta, Pod}
use habitat_operator.Kube.Api.{Api}
use habitat_operator.Labels.{habitat_key_from_labeled_resource}
use habitat_operator.State.{State, found, habitat, pod}
use habitat_operator.Workload.{Sts, new_stateful_set}
use habitat_operator.Workload.Owner.{KeysByName, Selects, new_stateful_set-key}
use habitat_operator.Handlers.{
  habitat_needs_update, get_habitat_from_labeled_resource, enqueue_owner, handle_hab_update,
  handle_pod_add,
}
use habitat_operator.Handlers.Eligible.{IsEligible, Adds, Adds-nil, enqueue-Adds}

same_value : {E A : Type 0} (r : Result E A) (a b : A) → r ≡ ok a → r ≡ ok b → a ≡ b
same_value r a b e f = cc

module _ (api : Api) where
  -- A labelled object whose Habitat is cached.
  owner-Adds :
      (m : Meta) (h : Habitat) (key k : String) (s : State api)
      → habitat_key_from_labeled_resource m ≡ ok key
      → s.habitats key ≡ found (habitat h)
      → IsEligible api h k
      → Adds api s (k ∷ []) (enqueue_owner api m s)
  unfolding get_habitat_from_labeled_resource
  owner-Adds m h key k s label cached v = rw (label, cached) (enqueue-Adds api h k s v)

-- A pod of a Habitat's StatefulSet, when it is added, puts the Habitat's key in the queue, and
-- nothing else happens: if the StatefulSet was built for the Habitat, the pod has the labels of its
-- template, and perhaps more, and the Habitat's namespace, and the Habitat is cached under its key and has the version `v1beta2`.
pub handle_pod_add-Adds :
    (api : Api) (h : Habitat) (hs : V1beta2) (t s : State api) (sts : Sts api) (p : Pod)
    (key : String)
    → KeysByName api
    → h.spec ≡ some hs
    → h.meta.namespace ≢ ""
    → h.meta.name ≢ ""
    → (new_stateful_set api h t).0 ≡ returns sts
    → Selects sts.spec.template.labels p.meta.labels
    → p.meta.namespace ≡ h.meta.namespace
    → api.meta_key h.meta ≡ ok key
    → s.habitats key ≡ found (habitat h)
    → h.custom_version ≡ some "v1beta2"
    → Adds api s (key ∷ []) (handle_pod_add api (pod p) s)
unfolding handle_pod_add
handle_pod_add-Adds api h hs t s sts p key keys spec ns name built labels namespace mk cached v =
    let (is_hab, _, (k, label, same)) =
      new_stateful_set-key api h hs t sts p.meta keys spec ns name built labels namespace in
    rw is_hab (
      owner-Adds api p.meta h key key s (label ∙ ap ok (same_value _ k key same mk)) cached (v, mk))

dec_cases : {A : Type 0} → Dec A → A ⊎ (¬ A)
dec_cases (yes a) = inl a
dec_cases (no n) = inr n

-- An update of a Habitat of this controller puts nothing in the queue if the specification is the
-- same, whatever else has changed, be it the custom version, and otherwise its key. Nothing else
-- happens.
pub handle_hab_update-Adds :
    (api : Api) (old new : Habitat) (k : String) (s : State api)
    → IsEligible api new k
    → Adds api s
        (ite (spec_discrete old.spec new.spec) [] (k ∷ []))
        (handle_hab_update api (habitat old) (habitat new) s)
unfolding handle_hab_update habitat_needs_update
handle_hab_update-Adds api old new k s v = elim (dec_cases (spec_discrete old.spec new.spec)) [
  | inl same ↦
      rw
        (
          if_pos {C = Bool} (spec_discrete old.spec new.spec) same,
          if_pos {C = List String} (spec_discrete old.spec new.spec) same,
        )
        (Adds-nil api s)
  | inr differ ↦
      rw
        (
          if_neg {C = Bool} (spec_discrete old.spec new.spec) differ,
          if_neg {C = List String} (spec_discrete old.spec new.spec) differ,
        )
        (enqueue-Adds api new k s v)
]

-- The same, where the specification has changed.
pub spec_changed-Adds :
    (api : Api) (old new : Habitat) (k : String) (s : State api)
    → old.spec ≢ new.spec
    → IsEligible api new k
    → Adds api s (k ∷ []) (handle_hab_update api (habitat old) (habitat new) s)
spec_changed-Adds api old new k s differ v =
    subst (λ ks. Adds api s ks (handle_hab_update api (habitat old) (habitat new) s))
      (if_neg {C = List String} (spec_discrete old.spec new.spec) differ [] (k ∷ []))
      (handle_hab_update-Adds api old new k s v)
