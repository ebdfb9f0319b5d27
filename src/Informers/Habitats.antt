-- ===== src/Informers/Habitats.antt =====
-- pkg/client/informers/externalversions: from a factory to the informer of Habitats, by its group
-- (habitat/interface.go), its version (habitat/v1beta1/interface.go) and its type
-- (habitat/v1beta1/habitat.go), and by its resource (generic.go). The factory that these refer to is
-- passed on beside them, since `InformerFor` changes it.
use habitat_operator.Base.{
  ℕ, String, none, some, List, Result, ok, err, if◌then◌else◌, ◌<>◌, ◌==◌, ◌&&◌, ◌≡◌, ap,
}
use habitat_operator.Listers.{Indexer}
use habitat_operator.Informers.{Sources, Tweak, Factory, informer_for}
use habitat_operator.Informers.Shared.{Use, use_all, informer_for_shared}

module _ (sources : Sources) where
  -- `group`, `version` and `habitatInformer`, which have the same fields.
  pub record Group : Type 0 where
    pub namespace : String
    pub tweak_list_options : Tweak sources

  pub record Version : Type 0 where
    pub namespace : String
    pub tweak_list_options : Tweak sources

  pub record HabitatInformer : Type 0 where
    pub namespace : String
    pub tweak_list_options : Tweak sources

  -- `Habitat` of the factory, with `New` of habitat/interface.go
  abbrev pub habitat : Factory sources → Group
  habitat f = record { namespace = f.namespace; tweak_list_options = f.tweak_list_options }

  -- `V1beta1`, with `New` of habitat/v1beta1/interface.go
  abbrev pub v1beta1 : Group → Version
  v1beta1 g = record { namespace = g.namespace; tweak_list_options = g.tweak_list_options }

  abbrev pub habitats : Version → HabitatInformer
  habitats v = record { namespace = v.namespace; tweak_list_options = v.tweak_list_options }

  -- `NewFilteredHabitatInformer`: a nil tweak changes nothing.
  abbrev pub tweaked : Tweak sources → sources.ListOptions → sources.ListOptions
  tweaked none options = options
  tweaked (some tweak) options = tweak options

  abbrev pub new_filtered_habitat_informer :
      sources.Client → String → ℕ → Tweak sources → sources.Informer
  new_filtered_habitat_informer client namespace resync tweak =
      sources.new_informer client namespace (tweaked tweak) resync

  abbrev pub habitat_type : String
  habitat_type = "*v1beta1.Habitat"

  -- `NewHabitatInformer`
  abbrev pub new_habitat_informer : sources.Client → String → ℕ → sources.Informer
  new_habitat_informer client namespace resync =
      new_filtered_habitat_informer client namespace resync none

  abbrev pub default_informer : HabitatInformer → sources.Client → ℕ → sources.Informer
  default_informer i client resync =
      new_filtered_habitat_informer client i.namespace resync i.tweak_list_options

  unfoldable pub informer : HabitatInformer → Factory sources → sources.Informer × Factory sources
  unfolding informer_for
  informer i f = informer_for sources f habitat_type (default_informer i)

  -- `Lister`; a lister is its indexer.
  unfoldable pub lister : HabitatInformer → Factory sources → Indexer × Factory sources
  unfolding informer
  lister i f = let r = informer i f in (sources.get_indexer r.0, r.1)

  -- `f.Habitat().V1beta1().Habitats()`
  abbrev pub habitats_of : Factory sources → HabitatInformer
  habitats_of f = habitats (v1beta1 (habitat f))

  unfoldable pub habitat_informer : Factory sources → sources.Informer × Factory sources
  unfolding informer
  habitat_informer f = informer (habitats_of f) f

  -- generic.go: an informer, and the group and the resource that it is for
  pub record GenericInformer : Type 0 where
    pub informer : sources.Informer
    pub resource : String × String

  -- generic.go: `ForResource`, on the group, version and resource
  unfoldable pub for_resource :
      Factory sources → String × String × String → Result String GenericInformer × Factory sources
  unfolding habitat_informer
  for_resource f (group, version, resource) =
      if group == "habitat.sh" && version == "v1beta1" && resource == "habitats"
      then (let i = habitat_informer f in
          (ok (record { informer = i.0; resource = (group, resource) }), i.1))
      else (
        err (
            "no informer found for "
            <> (group <> ("/" <> (version <> (", Resource=" <> resource))))),
        f,
      )

  -- The informer of Habitats is one, whichever way it is reached: once a factory has handed it out,
  -- whatever was done with the factory since, `ForResource` gives the same informer, the lister reads
  -- that informer's indexer, and neither changes the factory.
  pub habitat_informer_shared :
      (f : Factory sources) (us : List (Use sources))
      → let r = habitat_informer f in
        let later = (use_all sources us r.1).1 in
        (for_resource later ("habitat.sh", "v1beta1", "habitats")
          ≡ (ok (record { informer = r.0; resource = ("habitat.sh", "habitats") }), later))
        × (lister (habitats_of later) later ≡ (sources.get_indexer r.0, later))
  unfolding for_resource lister
  habitat_informer_shared f us =
      let r = habitat_informer f in
      let later = (use_all sources us r.1).1 in
      let same =
        informer_for_shared sources f habitat_type (default_informer (habitats_of f))
          (default_informer (habitats_of later)) us in
      (
        ap (λ x. (ok (record { informer = x.0; resource = ("habitat.sh", "habitats") }), x.1)) same,
        ap (λ x. (sources.get_indexer x.0, x.1)) same,
      )
