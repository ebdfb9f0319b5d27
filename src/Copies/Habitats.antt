-- ===== src/Copies/Habitats.antt =====
-- `DeepCopyInto` of `V1beta2`, `HabitatSpec` and `Habitat`.
use habitat_operator.Base.{some, ◌≡◌, refl, subst}
use habitat_operator.Types.{V1beta2, Habitat}
use habitat_operator.Copies.{
  Shapes, V1beta2Cell, HabitatCell, many_env_vars, a_v1beta2, as_env_vars, as_v1beta2, v1beta2_into,
  spec_into, habitat_into,
}
use habitat_operator.Copies.Copier.{
  Grows-refl, copy_pointer, copy_each, view_each, view_pointer, pointer-IsStable, pointer-IsCopier,
  each-IsStable, each-IsCopier, then_some_inv, field_then, at_end,
}
use habitat_operator.Copies.Grows.{Grows-trans, Owns, makes_pure, IsStable, IsCopier}
use habitat_operator.Copies.Views.{
  Library, Memory, view_string, view_storage, view_service, view_env, view_v1beta2, view_spec,
  view_habitat,
}
use habitat_operator.Copies.Structs.{
  some_injective, string-IsStable, string-IsCopier, storage-IsStable, storage-IsCopier,
  service-IsStable, service-IsCopier,
}

module _ (shapes : Shapes) (library : Library shapes) where
  env-IsStable : IsStable (view_env shapes library)
  env-IsStable =
      pointer-IsStable (as_env_vars shapes) (view_each library.view_env_var)
        (each-IsStable library.view_env_var library.env_var_stable)

  env-IsCopier :
      IsCopier
        (view_env shapes library)
        (copy_pointer (as_env_vars shapes) many_env_vars (copy_each library.copying.env_var))
  env-IsCopier =
      pointer-IsCopier (as_env_vars shapes) (view_each library.view_env_var)
        (each-IsStable library.view_env_var library.env_var_stable) many_env_vars
        (copy_each library.copying.env_var) (λ a. refl)
        (each-IsCopier library.view_env_var library.copying.env_var library.env_var_stable
          library.env_var_copied)

  -- What the fields of a `V1beta2` read as.
  record V1beta2Reads (s : V1beta2Cell) (f : Memory shapes) (v : V1beta2) : Type 0 where
    service : view_service shapes s.service f ≡ some v.service
    env : view_env shapes library s.env f ≡ some v.env
    storage : view_storage shapes s.persistent_storage f ≡ some v.persistent_storage
    count : s.count ≡ v.count
    image : s.image ≡ v.image

  v1beta2_reads :
      (s : V1beta2Cell) (f : Memory shapes) (v : V1beta2)
      → view_v1beta2 shapes library s f ≡ some v
      → V1beta2Reads s f v
  unfolding view_v1beta2
  v1beta2_reads s f v e =
      let (x1, e1, r1) = then_some_inv (view_service shapes s.service f) _ v e in
      let (x2, e2, r2) = then_some_inv (view_env shapes library s.env f) _ v r1 in
      let (x3, e3, r3) = then_some_inv (view_storage shapes s.persistent_storage f) _ v r2 in
      subst (V1beta2Reads s f) (some_injective r3)
        (record { service = e1; env = e2; storage = e3; count = refl; image = refl })

  v1beta2_of_reads :
      (s : V1beta2Cell) (f : Memory shapes) (v : V1beta2)
      → V1beta2Reads s f v
      → view_v1beta2 shapes library s f ≡ some v
  unfolding view_v1beta2
  v1beta2_of_reads s f v r = rw (r.service, r.env, r.storage, r.count, r.image) refl

  v1beta2-IsStable : IsStable (view_v1beta2 shapes library)
  v1beta2-IsStable f g w s v e =
      let r = v1beta2_reads s f v e in
      v1beta2_of_reads s g v (record {
        service = service-IsStable shapes f g w s.service v.service r.service;
        env = env-IsStable f g w s.env v.env r.env;
        storage = storage-IsStable shapes f g w s.persistent_storage v.persistent_storage r.storage;
        count = r.count;
        image = r.image;
      })

  v1beta2-IsCopier : IsCopier (view_v1beta2 shapes library) (v1beta2_into shapes library.copying)
  unfolding v1beta2_into
  v1beta2-IsCopier s h v w e =
      let r = v1beta2_reads s h.cell v e in
      let Q : V1beta2Cell → Memory shapes → Type 0 =
        λ b f. Owns (view_v1beta2 shapes library) h.next b v f in
      field_then (view_service shapes) _ (service-IsStable shapes) (service-IsCopier shapes) h h
        s.service v.service _ Q (Grows-refl (view_service shapes) h w) r.service
        λ service n1 g1 _ o1.
          field_then (view_env shapes library) _ env-IsStable env-IsCopier h n1 s.env v.env _ Q g1
            r.env
            λ env n2 g2 s2 o2.
              field_then (view_storage shapes) _ (storage-IsStable shapes) (storage-IsCopier shapes)
                h n2 s.persistent_storage v.persistent_storage _ Q g2 r.storage
                λ storage n3 g3 s3 o3.
                  let t1 = Grows-trans n1 n2 n3 s2 s3 in
                  makes_pure n3 _ Q g3.whole λ f m. v1beta2_of_reads _ f v (record {
                    service = at_end (view_service shapes) h.next service v.service n1 n3 f t1 m o1;
                    env = at_end (view_env shapes library) h.next env v.env n2 n3 f s3 m o2;
                    storage = o3 f m;
                    count = r.count;
                    image = r.image;
                  })

  spec-IsStable : IsStable (view_spec shapes library)
  spec-IsStable f g w s v e =
      pointer-IsStable (as_v1beta2 shapes) (view_v1beta2 shapes library) v1beta2-IsStable f g w
        s.v1beta2 v e

  spec-IsCopier : IsCopier (view_spec shapes library) (spec_into shapes library.copying)
  unfolding spec_into
  spec-IsCopier s h v w e =
      let pointer = view_pointer (as_v1beta2 shapes) (view_v1beta2 shapes library) in
      field_then pointer _
        (pointer-IsStable (as_v1beta2 shapes) (view_v1beta2 shapes library) v1beta2-IsStable)
        (pointer-IsCopier (as_v1beta2 shapes) (view_v1beta2 shapes library) v1beta2-IsStable
          a_v1beta2 (v1beta2_into shapes library.copying) (λ a. refl) v1beta2-IsCopier)
        h h s.v1beta2 v _ (λ b f. Owns (view_spec shapes library) h.next b v f)
        (Grows-refl pointer h w) e
        λ b n g _ own.
          makes_pure n _ (λ b f. Owns (view_spec shapes library) h.next b v f) g.whole own

  -- What the fields of a Habitat read as.
  record HabitatReads (s : HabitatCell shapes) (f : Memory shapes) (v : Habitat) : Type 0 where
    meta : library.view_meta s.meta f ≡ some v.meta
    spec : view_spec shapes library s.spec f ≡ some v.spec
    version : view_string shapes s.custom_version f ≡ some v.custom_version
    status : s.status ≡ v.status

  habitat_reads :
      (s : HabitatCell shapes) (f : Memory shapes) (v : Habitat)
      → view_habitat shapes library s f ≡ some v
      → HabitatReads s f v
  unfolding view_habitat
  habitat_reads s f v e =
      let (x1, e1, r1) = then_some_inv (library.view_meta s.meta f) _ v e in
      let (x2, e2, r2) = then_some_inv (view_spec shapes library s.spec f) _ v r1 in
      let (x3, e3, r3) = then_some_inv (view_string shapes s.custom_version f) _ v r2 in
      subst (HabitatReads s f) (some_injective r3)
        (record { meta = e1; spec = e2; version = e3; status = refl })

  habitat_of_reads :
      (s : HabitatCell shapes) (f : Memory shapes) (v : Habitat)
      → HabitatReads s f v
      → view_habitat shapes library s f ≡ some v
  unfolding view_habitat
  habitat_of_reads s f v r = rw (r.meta, r.spec, r.version, r.status) refl

  pub habitat-IsStable : IsStable (view_habitat shapes library)
  habitat-IsStable f g w s v e =
      let r = habitat_reads s f v e in
      habitat_of_reads s g v (record {
        meta = library.meta_stable f g w s.meta v.meta r.meta;
        spec = spec-IsStable f g w s.spec v.spec r.spec;
        version = string-IsStable shapes f g w s.custom_version v.custom_version r.version;
        status = r.status;
      })

  pub habitat-IsCopier :
      IsCopier (view_habitat shapes library) (habitat_into shapes library.copying)
  unfolding habitat_into
  habitat-IsCopier s h v w e =
      let r = habitat_reads s h.cell v e in
      let Q : HabitatCell shapes → Memory shapes → Type 0 =
        λ b f. Owns (view_habitat shapes library) h.next b v f in
      field_then library.view_meta _ library.meta_stable library.meta_copied h h s.meta v.meta _ Q
        (Grows-refl library.view_meta h w) r.meta
        λ meta n1 g1 _ o1.
          field_then (view_spec shapes library) _ spec-IsStable spec-IsCopier h n1 s.spec v.spec _ Q
            g1 r.spec
            λ spec n2 g2 s2 o2.
              field_then (view_string shapes) _ (string-IsStable shapes) (string-IsCopier shapes) h
                n2 s.custom_version v.custom_version _ Q g2 r.version
                λ version n3 g3 s3 o3.
                  let t1 = Grows-trans n1 n2 n3 s2 s3 in
                  makes_pure n3 _ Q g3.whole λ f m. habitat_of_reads _ f v (record {
                    meta = at_end library.view_meta h.next meta v.meta n1 n3 f t1 m o1;
                    spec = at_end (view_spec shapes library) h.next spec v.spec n2 n3 f s3 m o2;
                    version = o3 f m;
                    status = r.status;
                  })
