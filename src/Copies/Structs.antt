-- ===== src/Copies/Structs.antt =====
-- `DeepCopyInto` of a service, and of the strings, binds and storage that the structs point to.
use habitat_operator.Base.{some, ◌≡◌, refl, subst}
use habitat_operator.Types.{Service}
use habitat_operator.Copies.{
  Shapes, ServiceCell, Cell, a_string, many_binds, a_storage, as_string, as_binds, as_storage,
  copy_string, service_into,
}
use habitat_operator.Memory.{pure}
use habitat_operator.Copies.Copier.{
  Grows-refl, copy_pointer, pointer-IsStable, pointer-IsCopier, then_some_inv, field_then, at_end,
}
use habitat_operator.Copies.Grows.{
  Grows-trans, Owns, makes_pure, view_plain, plain-IsCopier, IsStable, IsCopier,
}
use habitat_operator.Copies.Views.{Memory, view_string, view_binds, view_storage, view_service}

pub some_injective : {A : Type 0} {a b : A} → some a ≡ some b → a ≡ b
some_injective e = cc

module _ (shapes : Shapes) where
  plain_stable : {A : Type 0} → IsStable {C = Cell shapes} {A = A} view_plain
  plain_stable f g w a v e = e

  pub string-IsStable : IsStable (view_string shapes)
  string-IsStable = pointer-IsStable (as_string shapes) view_plain plain_stable

  pub string-IsCopier : IsCopier (view_string shapes) (copy_string shapes)
  string-IsCopier =
      pointer-IsCopier (as_string shapes) view_plain plain_stable a_string pure (λ a. refl)
        plain-IsCopier

  binds-IsStable : IsStable (view_binds shapes)
  binds-IsStable = pointer-IsStable (as_binds shapes) view_plain plain_stable

  binds-IsCopier : IsCopier (view_binds shapes) (copy_pointer (as_binds shapes) many_binds pure)
  binds-IsCopier =
      pointer-IsCopier (as_binds shapes) view_plain plain_stable many_binds pure (λ a. refl)
        plain-IsCopier

  pub storage-IsStable : IsStable (view_storage shapes)
  storage-IsStable = pointer-IsStable (as_storage shapes) view_plain plain_stable

  pub storage-IsCopier :
      IsCopier (view_storage shapes) (copy_pointer (as_storage shapes) a_storage pure)
  storage-IsCopier =
      pointer-IsCopier (as_storage shapes) view_plain plain_stable a_storage pure (λ a. refl)
        plain-IsCopier

  -- What the fields of a service read as.
  record ServiceReads (s : ServiceCell) (f : Memory shapes) (v : Service) : Type 0 where
    group : view_string shapes s.group f ≡ some v.group
    config : view_string shapes s.config_secret_name f ≡ some v.config_secret_name
    ring : view_string shapes s.ring_secret_name f ≡ some v.ring_secret_name
    files : view_string shapes s.files_secret_name f ≡ some v.files_secret_name
    binds : view_binds shapes s.bind f ≡ some v.bind
    channel : view_string shapes s.channel f ≡ some v.channel
    topology : s.topology ≡ v.topology
    name : s.name ≡ v.name

  service_reads :
      (s : ServiceCell) (f : Memory shapes) (v : Service)
      → view_service shapes s f ≡ some v
      → ServiceReads s f v
  unfolding view_service
  service_reads s f v e =
      let (x1, e1, r1) = then_some_inv (view_string shapes s.group f) _ v e in
      let (x2, e2, r2) = then_some_inv (view_string shapes s.config_secret_name f) _ v r1 in
      let (x3, e3, r3) = then_some_inv (view_string shapes s.ring_secret_name f) _ v r2 in
      let (x4, e4, r4) = then_some_inv (view_string shapes s.files_secret_name f) _ v r3 in
      let (x5, e5, r5) = then_some_inv (view_binds shapes s.bind f) _ v r4 in
      let (x6, e6, r6) = then_some_inv (view_string shapes s.channel f) _ v r5 in
      subst (ServiceReads s f) (some_injective r6) (record {
        group = e1;
        config = e2;
        ring = e3;
        files = e4;
        binds = e5;
        channel = e6;
        topology = refl;
        name = refl;
      })

  service_of_reads :
      (s : ServiceCell) (f : Memory shapes) (v : Service)
      → ServiceReads s f v
      → view_service shapes s f ≡ some v
  unfolding view_service
  service_of_reads s f v r =
      rw (r.group, r.config, r.ring, r.files, r.binds, r.channel, r.topology, r.name) refl

  pub service-IsStable : IsStable (view_service shapes)
  service-IsStable f g w s v e =
      let r = service_reads s f v e in
      service_of_reads s g v (record {
        group = string-IsStable f g w s.group v.group r.group;
        config = string-IsStable f g w s.config_secret_name v.config_secret_name r.config;
        ring = string-IsStable f g w s.ring_secret_name v.ring_secret_name r.ring;
        files = string-IsStable f g w s.files_secret_name v.files_secret_name r.files;
        binds = binds-IsStable f g w s.bind v.bind r.binds;
        channel = string-IsStable f g w s.channel v.channel r.channel;
        topology = r.topology;
        name = r.name;
      })

  pub service-IsCopier : IsCopier (view_service shapes) (service_into shapes)
  unfolding service_into
  service-IsCopier s h v w e =
      let r = service_reads s h.cell v e in
      let Q : ServiceCell → Memory shapes → Type 0 =
        λ b f. Owns (view_service shapes) h.next b v f in
      let string =
        field_then (view_string shapes) (copy_string shapes) string-IsStable string-IsCopier in
      string h h s.group v.group _ Q (Grows-refl (view_service shapes) h w) r.group
        λ group n1 g1 _ o1.
          string h n1 s.config_secret_name v.config_secret_name _ Q g1 r.config
            λ config n2 g2 s2 o2.
              string h n2 s.ring_secret_name v.ring_secret_name _ Q g2 r.ring λ ring n3 g3 s3 o3.
                string h n3 s.files_secret_name v.files_secret_name _ Q g3 r.files
                  λ files n4 g4 s4 o4.
                    field_then (view_binds shapes) _ binds-IsStable binds-IsCopier h n4 s.bind
                      v.bind _ Q g4 r.binds
                      λ binds n5 g5 s5 o5.
                        string h n5 s.channel v.channel _ Q g5 r.channel λ channel n6 g6 s6 o6.
                          let t4 = Grows-trans n4 n5 n6 s5 s6 in
                          let t3 = Grows-trans n3 n4 n6 s4 t4 in
                          let t2 = Grows-trans n2 n3 n6 s3 t3 in
                          let t1 = Grows-trans n1 n2 n6 s2 t2 in
                          makes_pure n6 _ Q g6.whole λ f m. service_of_reads _ f v (record {
                            group =
                                at_end (view_string shapes) h.next group v.group n1 n6 f t1 m o1;
                            config =
                                at_end (view_string shapes) h.next config v.config_secret_name n2 n6
                                  f t2 m o2;
                            ring =
                                at_end (view_string shapes) h.next ring v.ring_secret_name n3 n6 f
                                  t3 m o3;
                            files =
                                at_end (view_string shapes) h.next files v.files_secret_name n4 n6 f
                                  t4 m o4;
                            binds = at_end (view_binds shapes) h.next binds v.bind n5 n6 f s6 m o5;
                            channel = o6 f m;
                            topology = r.topology;
                            name = r.name;
                          })
