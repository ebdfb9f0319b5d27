-- ===== src/Copies/Correct.antt =====
-- `DeepCopy` of Habitats and of lists of them.
use habitat_operator.Base.{ℕ, Option, some, ◌≡◌, refl, sym, ◌∙◌, subst}
use habitat_operator.Types.{Habitat, Slice}
use habitat_operator.Copies.{
  Shapes, HabitatListCell, Cell, a_habitat, many_habitats, a_habitat_list, as_habitat, as_habitats,
  as_habitat_list, habitat_into, habitat_list_into, deep_copy_habitat, deep_copy_habitat_list,
}
use habitat_operator.Memory.{Heap, Cells, Cmd}
use habitat_operator.Copies.Copier.{
  Grows-refl, copy_each, view_each, view_pointer, pointer-IsStable, pointer-IsCopier, each-IsStable,
  each-IsCopier, then_some_inv, field_then,
}
use habitat_operator.Copies.Grows.{Within, IsWhole, Owns, makes_pure, IsStable, IsCopier}
use habitat_operator.Copies.Views.{Library, Memory, view_habitat, view_habitat_list}
use habitat_operator.Copies.Structs.{some_injective}
use habitat_operator.Copies.Habitats.{habitat-IsStable, habitat-IsCopier}

-- What a copier gives, with the result at hand.
module _ {C A V : Type 0} (view : A → Cells C → Option V) (into : A → Cmd C A) where
  copier_reads :
      IsStable view
      → IsCopier view into
      → (a : A) (h : Heap C) (v : V) → IsWhole h
      → view a h.cell ≡ some v
      → (b : A) × (k : Heap C) × (into a h ≡ some (b, k))
        × (view b k.cell ≡ some v)
        × (view a k.cell ≡ some v)
  copier_reads stable copier a h v w e =
      let (b, k, made, g, own) = copier a h v w e in
      (b, k, made, own k.cell (λ p c n x. x), stable h.cell k.cell g.kept a v e)

  copier_independent :
      IsCopier view into
      → (a b : A) (h k : Heap C) (v : V) → IsWhole h
      → view a h.cell ≡ some v
      → into a h ≡ some (b, k)
      → (g : Cells C) → Within h.next k.cell g
      → view b g ≡ some v
  copier_independent copier a b h k v w e made =
      let (b', k', made', _, own) = copier a h v w e in
      subst (λ (x : A × Heap C). (g : Cells C) → Within h.next x.1.cell g → view x.0 g ≡ some v)
        (some_injective (sym made' ∙ made)) own

module _ (shapes : Shapes) (library : Library shapes) where
  -- What a pointer to a Habitat, or to a list of them, reads as.
  abbrev pub view_habitat_pointer : Option ℕ → Memory shapes → Option (Option Habitat)
  view_habitat_pointer = view_pointer (as_habitat shapes) (view_habitat shapes library)

  abbrev pub view_list_pointer :
      Option ℕ → Memory shapes → Option (Option (shapes.ListMeta × Slice Habitat))
  view_list_pointer = view_pointer (as_habitat_list shapes) (view_habitat_list shapes library)

  items : Option ℕ → Memory shapes → Option (Slice Habitat)
  items = view_pointer (as_habitats shapes) (view_each (view_habitat shapes library))

  items-IsStable : IsStable items
  unfolding items
  items-IsStable =
      pointer-IsStable (as_habitats shapes) (view_each (view_habitat shapes library))
        (each-IsStable (view_habitat shapes library) (habitat-IsStable shapes library))

  list-IsStable : IsStable (view_habitat_list shapes library)
  unfolding view_habitat_list items
  list-IsStable f g w s v e =
      let (x, seen, rest) = then_some_inv (items s.items f) _ v e in
      rw (items-IsStable f g w s.items x seen) rest

  list-IsCopier :
      IsCopier (view_habitat_list shapes library) (habitat_list_into shapes library.copying)
  unfolding view_habitat_list habitat_list_into items
  list-IsCopier s h v w e =
      let (x, seen, rest) = then_some_inv (items s.items h.cell) _ v e in
      let Q : HabitatListCell shapes → Memory shapes → Type 0 =
        λ b f. Owns (view_habitat_list shapes library) h.next b v f in
      field_then items _ items-IsStable
        (pointer-IsCopier (as_habitats shapes) (view_each (view_habitat shapes library))
          (each-IsStable (view_habitat shapes library) (habitat-IsStable shapes library))
          many_habitats (copy_each (habitat_into shapes library.copying)) (λ a. refl)
          (each-IsCopier (view_habitat shapes library) (habitat_into shapes library.copying)
            (habitat-IsStable shapes library) (habitat-IsCopier shapes library)))
        h h s.items x _ Q (Grows-refl items h w) seen
        λ b n g _ own. makes_pure n _ Q g.whole λ f m. rw (own f m) rest

  -- `DeepCopy` of a Habitat that can be read ends, without a fault. The copy reads as the Habitat did,
  -- every pointer in it followed, and the Habitat itself still does.
  pub deep_copy_habitat_reads :
      (p : Option ℕ) (h : Heap (Cell shapes)) (v : Option Habitat)
      → IsWhole h
      → view_habitat_pointer p h.cell ≡ some v
      → (q : Option ℕ) × (k : Heap (Cell shapes)) × (deep_copy_habitat shapes library.copying p h
          ≡ some (q, k))
        × (view_habitat_pointer q k.cell ≡ some v)
        × (view_habitat_pointer p k.cell ≡ some v)
  deep_copy_habitat_reads =
      copier_reads view_habitat_pointer (deep_copy_habitat shapes library.copying)
        (pointer-IsStable (as_habitat shapes) (view_habitat shapes library)
          (habitat-IsStable shapes library))
        (pointer-IsCopier (as_habitat shapes) (view_habitat shapes library)
          (habitat-IsStable shapes library) a_habitat (habitat_into shapes library.copying)
          (λ a. refl) (habitat-IsCopier shapes library))

  -- A `DeepCopy` of a list of Habitats shares no memory with the list: whatever is written to the
  -- addresses that were given out before the copy was made, it still reads as the list did then.
  pub deep_copy_habitat_list_independent :
      (p q : Option ℕ) (h k : Heap (Cell shapes)) (v : Option (shapes.ListMeta × Slice Habitat))
      → IsWhole h
      → view_list_pointer p h.cell ≡ some v
      → deep_copy_habitat_list shapes library.copying p h ≡ some (q, k)
      → (g : Memory shapes) → Within h.next k.cell g
      → view_list_pointer q g ≡ some v
  deep_copy_habitat_list_independent =
      copier_independent view_list_pointer (deep_copy_habitat_list shapes library.copying) (
        pointer-IsCopier (as_habitat_list shapes) (view_habitat_list shapes library) list-IsStable
          a_habitat_list (habitat_list_into shapes library.copying) (λ a. refl) list-IsCopier)
