-- ===== src/DeepCopy/Copies/Arrays.antt =====
-- Copies of arrays.
use kom_operator.Prelude.{
  ℕ, suc, ◌≡◌, refl, ap, sym, ◌∙◌, subst, arith, Option, none, some, List, [], ◌∷◌, All, eqb_iff,
}
use kom_operator.DeepCopy.Memory.{
  Memory, Kind, Address, Copy, elements, write, make, store, copy_elements, copy_elements_of,
  copy_array, Same, Below, Between, Deep,
}
use kom_operator.DeepCopy.Copies.{
  write_other, Grows, Copied, Copies, Grows-refl, Within-Grows, Copied-Grows, Copied-since,
}

module _ {C T V : Type 0} (d : Deep C T V) where
  -- The values of a list, without the array that holds them.
  abbrev pub Elements : Deep C (List T) (List V)
  Elements = record {
    view = view;
    Within = λ S m xs. All (d.Within S m) xs;
    same_view = same_view;
    same_within = same_within;
    wider = wider;
  }
    where
      view : List T → Memory C → List V
      view [] m = []
      view (x ∷ xs) m = d.view x m ∷ view xs m

      same_view :
          (S : ℕ → Type 0) (m n : Memory C) (xs : List T)
          → All (d.Within S m) xs
          → Same S m n
          → view xs n ≡ view xs m
      same_view S m n [] h same = refl
      same_view S m n (x ∷ xs) h same =
          ap (λ v. v ∷ view xs n) (d.same_view S m n x h.0 same)
          ∙ ap (λ vs. d.view x m ∷ vs) (same_view S m n xs h.1 same)

      same_within :
          (S : ℕ → Type 0) (m n : Memory C) (xs : List T)
          → All (d.Within S m) xs
          → Same S m n
          → All (d.Within S n) xs
      same_within S m n [] h same = tt
      same_within S m n (x ∷ xs) h same =
          (d.same_within S m n x h.0 same, same_within S m n xs h.1 same)

      wider :
          (S R : ℕ → Type 0) (m : Memory C) (xs : List T)
          → ((a : ℕ) → S a → R a)
          → All (d.Within S m) xs
          → All (d.Within R m) xs
      wider S R m [] sub h = tt
      wider S R m (x ∷ xs) sub h = (d.wider S R m x sub h.0, wider S R m xs sub h.1)

  module _ (f : T → Copy C T) (c : Copies d f) where
    elements-Copied :
        (m : Memory C) (xs : List T)
        → All (d.Within (Below m.next) m) xs
        → Copied Elements m xs (copy_elements f xs m).0 (copy_elements f xs m).1
    unfolding copy_elements
    elements-Copied m [] h = record { grows = Grows-refl m; equal = refl; fresh = tt }
    elements-Copied m (x ∷ xs) h =
        let first = c.copied m x h.0 in
        let n = (f x m).1 in
        let second = elements-Copied n xs (Within-Grows Elements m n xs first.grows h.1) in
        let o = (copy_elements f xs n).1 in
        let a = Copied-Grows d m n o x (f x m).0 first second.grows in
        let b = Copied-since Elements m n o xs (copy_elements f xs n).0 first.grows h.1 second in
        record { grows = a.grows; equal = λ i. a.equal i ∷ b.equal i; fresh = (a.fresh, b.fresh) }

  module _ (k : Kind C T) where
    pub elements_held :
        (m : Memory C) (a : ℕ) (xs : List T) → m.cell a ≡ some (k.inject xs) → elements k m a ≡ xs
    unfolding elements
    elements_held m a xs e = rw (e, k.project-inject xs) refl

    pub elements_same :
        (m n : Memory C) (a : ℕ) → n.cell a ≡ m.cell a → elements k n a ≡ elements k m a
    unfolding elements
    elements_same m n a e = rw e refl

    -- A slice, a map or a pointer, by what it leads to.
    abbrev pub Array : Deep C Address (Option (List V))
    Array = record {
      view = view;
      Within = IsWithin;
      same_view = same_view;
      same_within = same_within;
      wider = wider;
    }
      where
        view : Address → Memory C → Option (List V)
        view none m = none
        view (some a) m = some (Elements.view (elements k m a) m)

        IsWithin : (ℕ → Type 0) → Memory C → Address → Type 0
        IsWithin S m none = Unit
        IsWithin S m (some a) =
            S a × (xs : List T) × (m.cell a ≡ some (k.inject xs)) × All (d.Within S m) xs

        same_view :
            (S : ℕ → Type 0) (m n : Memory C) (a : Address)
            → IsWithin S m a
            → Same S m n
            → view a n ≡ view a m
        same_view S m n none h same = refl
        same_view S m n (some a) (s, xs, e, h) same =
            let held = elements_held m a xs e in
            ap (λ ys. some (Elements.view ys n)) (elements_same m n a (same a s) ∙ held)
            ∙ (ap (λ vs. some vs) (Elements.same_view S m n xs h same)
                ∙ ap (λ ys. some (Elements.view ys m)) (sym held))

        same_within :
            (S : ℕ → Type 0) (m n : Memory C) (a : Address)
            → IsWithin S m a
            → Same S m n
            → IsWithin S n a
        same_within S m n none h same = tt
        same_within S m n (some a) (s, xs, e, h) same =
            (s, xs, same a s ∙ e, Elements.same_within S m n xs h same)

        wider :
            (S R : ℕ → Type 0) (m : Memory C) (a : Address)
            → ((b : ℕ) → S b → R b)
            → IsWithin S m a
            → IsWithin R m a
        wider S R m none sub h = tt
        wider S R m (some a) sub (s, xs, e, h) = (sub a s, xs, e, Elements.wider S R m xs sub h)

    module _ (f : T → Copy C T) (c : Copies d f) where
      write_own : (m : Memory C) (a : ℕ) (x : C) → (write m a x).cell a ≡ some x
      unfolding write
      write_own m a x = rw ((eqb_iff a a).1 refl) refl

      abbrev reserved : Memory C → Memory C
      reserved m = record m { next = suc m.next }

      array-Copied :
          (m : Memory C) (a : ℕ) (xs : List T)
          → m.cell a ≡ some (k.inject xs)
          → All (d.Within (Below m.next) m) xs
          → Copied Array m (some a) (copy_elements_of k f xs m).0 (copy_elements_of k f xs m).1
      unfolding copy_elements_of make store write copy_elements
      array-Copied m a xs e h =
          let n = reserved m in
          let ys = (copy_elements f xs n).0 in
          let o = (copy_elements f xs n).1 in
          let q = write o m.next (k.inject ys) in
          let g : Grows m n = record { longer = omega arith; same = λ b i. refl } in
          let body = elements-Copied f c n xs (Within-Grows Elements m n xs g h) in
          let since = Copied-since Elements m n o xs ys g h body in
          let longer = body.grows.longer in
          let kept : Same (Between n.next o.next) o q =
            λ b i. write_other o m.next b (k.inject ys) (ground (arith, i.0)) in
          let own = write_own o m.next (k.inject ys) in
          record {
            grows = record {
              longer = since.grows.longer;
              same = λ b i.
                  write_other o m.next b (k.inject ys) (ground (arith, i)) ∙ since.grows.same b i;
            };
            equal =
                ap (λ zs. some (Elements.view zs q)) (elements_held q m.next ys own)
                ∙ (ap (λ vs. some vs)
                      (Elements.same_view (Between n.next o.next) o q ys body.fresh kept
                        ∙ since.equal)
                    ∙ ap (λ zs. some (Elements.view zs m)) (sym (elements_held m a xs e)));
            fresh = (
              (omega arith, omega (arith, longer)),
              ys,
              own,
              Elements.wider (Between n.next o.next) (Between m.next o.next) q ys
                  (λ b i. (omega (arith, i.0), i.1))
                  (Elements.same_within (Between n.next o.next) o q ys body.fresh kept),
            );
          }

      pub Array-Copies : Copies Array (copy_array k f)
      unfolding copy_array
      Array-Copies = record { copied = go }
        where
          go :
              (m : Memory C) (a : Address)
              → Array.Within (Below m.next) m a
              → Copied Array m a (copy_array k f a m).0 (copy_array k f a m).1
          go m none h = record { grows = Grows-refl m; equal = refl; fresh = tt }
          go m (some a) (s, xs, e, h) =
              subst
                (λ zs.
                  Copied Array m (some a) (copy_elements_of k f zs m).0
                    (copy_elements_of k f zs m).1)
                (sym (elements_held m a xs e)) (array-Copied m a xs e h)
