-- ===== src/DeepCopy/Apart.antt =====
-- Copies and their originals while code writes to one of them.
use kom_operator.Prelude.{◌≡◌, refl, sym, ◌∙◌, subst, none, some}
use kom_operator.DeepCopy.Memory.{Memory, Address, Below, Between, Same}
use kom_operator.DeepCopy.Copies.{Copied}
use kom_operator.DeepCopy.Types.{Foreign, Cell}
use kom_operator.DeepCopy.Functions.{
  Externals, object_of, microservice_deep_copy, list_deep_copy, microservice_deep_copy_object,
  list_deep_copy_object,
}
use kom_operator.DeepCopy.Faithful.{DeepCopies}
use kom_operator.DeepCopy.Faithful.Whole.{
  MicroservicePointer, ListPointer, microservice_pointer_copied, list_pointer_copied,
}

-- The interface value is the pointer.
object_lem : {F : Foreign} (r : Address × Memory (Cell F)) → object_of r.0 r.1 ≡ r
object_lem (none, m) = refl
object_lem (some a, m) = refl

module _ {F : Foreign} (e : Externals F) (a : Address) (m : Memory (Cell F)) where
  microservice_object : microservice_deep_copy_object e a m ≡ microservice_deep_copy e a m
  unfolding microservice_deep_copy_object
  microservice_object = object_lem (microservice_deep_copy e a m)

  list_object : list_deep_copy_object e a m ≡ list_deep_copy e a m
  unfolding list_deep_copy_object
  list_object = object_lem (list_deep_copy e a m)

module _ {F : Foreign} {e : Externals F} (d : DeepCopies e) (a : Address)
    (m : Memory (Cell F)) where
  -- `DeepCopyObject` of a list of microservices, whose slices, maps and pointers all lead to cells
  -- in use of the right kind, writes to no cell that was in use, and gives an object that reads as
  -- the list did, down to the elements of every slice and the entries of every map, and that leads
  -- to new cells only. The `DeepCopyInto` of the types of other packages copies in this sense.
  pub list_deep_copy_object-Copied :
      (ListPointer d).Within (Below m.next) m a
      → Copied (ListPointer d) m a (list_deep_copy_object e a m).0 (list_deep_copy_object e a m).1
  list_deep_copy_object-Copied h =
      subst (λ (r : Address × Memory (Cell F)). Copied (ListPointer d) m a r.0 r.1)
        (sym (list_object e a m)) ((list_pointer_copied d).copied m a h)

  microservice_object-Copied :
      (MicroservicePointer d).Within (Below m.next) m a
      → Copied
          (MicroservicePointer d)
          m
          a
          (microservice_deep_copy_object e a m).0
          (microservice_deep_copy_object e a m).1
  microservice_object-Copied h =
      subst (λ (r : Address × Memory (Cell F)). Copied (MicroservicePointer d) m a r.0 r.1)
        (sym (microservice_object e a m)) ((microservice_pointer_copied d).copied m a h)

  -- After `DeepCopyObject` of a microservice whose slices, maps and pointers all lead to cells in
  -- use of the right kind, code that leaves alone the cells that were in use before leaves the
  -- original reading as it did, and code that leaves alone the cells that the call made leaves the
  -- copy reading as the original did, whatever else either of them writes. The `DeepCopyInto` of
  -- the types of other packages copies so that the result reads the same and stands in new cells.
  pub microservice_copies_apart :
      (MicroservicePointer d).Within (Below m.next) m a
      → (o : Memory (Cell F)) → Same (Below m.next) (microservice_deep_copy_object e a m).1 o
      → (p : Memory (Cell F))
      → Same
          (Between m.next (microservice_deep_copy_object e a m).1.next)
          (microservice_deep_copy_object e a m).1
          p
      → ((MicroservicePointer d).view a o ≡ (MicroservicePointer d).view a m)
        × ((MicroservicePointer d).view (microservice_deep_copy_object e a m).0 p
            ≡ (MicroservicePointer d).view a m)
  microservice_copies_apart h o same_old p same_new =
      let c = microservice_object-Copied h in
      (
        (MicroservicePointer d).same_view (Below m.next) m o a h
            (λ b i. same_old b i ∙ c.grows.same b i),
        (MicroservicePointer d).same_view _ _ p _ c.fresh same_new ∙ c.equal,
      )
