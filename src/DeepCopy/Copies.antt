-- ===== src/DeepCopy/Copies.antt =====
-- What a deep copy is, and rules for values, pairs and arrays.
pub mod Arrays
use kom_operator.Prelude.{ℕ, ◌≤◌, ◌<◌, ◌≡◌, refl, ap, subst, eqb, false, ◌∙◌, arith}
use kom_operator.DeepCopy.Memory.{write, Memory, Copy, pure, ◌>>=◌, Same, Below, Between, Deep}

-- The memory has only got new cells.
pub record Grows {C : Type 0} (m n : Memory C) : Type 0 where
  pub longer : m.next ≤ n.next
  pub same : Same (Below m.next) m n

-- `y` in `n` is a copy of `x` in `m`: it reads the same, and stands in cells that are new in `n`.
pub record Copied {C T V : Type 0} (d : Deep C T V) (m : Memory C) (x : T) (y : T) (n : Memory C)
    : Type 0 where
  pub grows : Grows m n
  pub equal : d.view y n ≡ d.view x m
  pub fresh : d.Within (Between m.next n.next) n y

pub record Copies {C T V : Type 0} (d : Deep C T V) (copy_into : T → Copy C T) : Type 0 where
  pub copied :
      (m : Memory C) (x : T)
      → d.Within (Below m.next) m x
      → Copied d m x (copy_into x m).0 (copy_into x m).1

module _ {C : Type 0} where
  pub write_other :
      (m : Memory C) (a b : ℕ) (x : C) → eqb b a ≡ false → (write m a x).cell b ≡ m.cell b
  unfolding write
  write_other m a b x e = rw e refl

  pub Grows-refl : (m : Memory C) → Grows m m
  Grows-refl m = record { longer = omega arith; same = λ a h. refl }

  pub Grows-trans : (m n o : Memory C) → Grows m n → Grows n o → Grows m o
  Grows-trans m n o g h = record {
    longer = omega (arith, g.longer, h.longer);
    same = λ a b. h.same a (omega (arith, g.longer, b)) ∙ g.same a b;
  }

  module _ {T V : Type 0} (d : Deep C T V) where
    -- What stands in a memory still stands in a larger one.
    pub Within-Grows :
        (m n : Memory C) (x : T)
        → Grows m n
        → d.Within (Below m.next) m x
        → d.Within (Below n.next) n x
    Within-Grows m n x g h =
        d.wider (Below m.next) (Below n.next) n x (λ a b. omega (arith, g.longer, b))
          (d.same_within (Below m.next) m n x h g.same)

    pub view-Grows :
        (m n : Memory C) (x : T) → Grows m n → d.Within (Below m.next) m x → d.view x n ≡ d.view x m
    view-Grows m n x g h = d.same_view (Below m.next) m n x h g.same

    -- A copy stays one while the memory grows.
    pub Copied-Grows :
        (m n o : Memory C) (x y : T) → Copied d m x y n → Grows n o → Copied d m x y o
    Copied-Grows m n o x y c g =
        let kept : Same (Between m.next n.next) n o = λ a b. g.same a b.1 in
        record {
          grows = Grows-trans m n o c.grows g;
          equal = d.same_view (Between m.next n.next) n o y c.fresh kept ∙ c.equal;
          fresh =
              d.wider (Between m.next n.next) (Between m.next o.next) o y
                (λ a b. (b.0, omega (arith, b.1, g.longer)))
                (d.same_within (Between m.next n.next) n o y c.fresh kept);
        }

    -- The copy of a value in a memory that has grown since is a copy of the value before.
    pub Copied-since :
        (m n o : Memory C) (x y : T)
        → Grows m n
        → d.Within (Below m.next) m x
        → Copied d n x y o
        → Copied d m x y o
    Copied-since m n o x y g h c = record {
      grows = Grows-trans m n o g c.grows;
      equal = c.equal ∙ view-Grows m n x g h;
      fresh =
          d.wider (Between n.next o.next) (Between m.next o.next) o y
            (λ a b. (omega (arith, b.0, g.longer), b.1)) c.fresh;
    }

  -- A value that leads to no cells.
  abbrev pub Plain : (T : Type 0) → Deep C T T
  Plain T = record {
    view = λ x m. x;
    Within = λ S m x. Unit;
    same_view = λ S m n x h same. refl;
    same_within = λ S m n x h same. tt;
    wider = λ S R m x sub h. tt;
  }

  pub Plain-Copies : {T : Type 0} → Copies (Plain T) pure
  Plain-Copies = record {
    copied = λ m x h. record { grows = Grows-refl m; equal = refl; fresh = tt };
  }

  module _ {T V U W : Type 0} (d : Deep C T V) (e : Deep C U W) where
    abbrev pub Both : Deep C (T × U) (V × W)
    Both = record {
      view = λ x m. (d.view x.0 m, e.view x.1 m);
      Within = λ S m x. d.Within S m x.0 × e.Within S m x.1;
      same_view =
          λ S m n x h same i. (d.same_view S m n x.0 h.0 same i, e.same_view S m n x.1 h.1 same i);
      same_within =
          λ S m n x h same. (d.same_within S m n x.0 h.0 same, e.same_within S m n x.1 h.1 same);
      wider = λ S R m x sub h. (d.wider S R m x.0 sub h.0, e.wider S R m x.1 sub h.1);
    }

    abbrev pub copy_both : (T → Copy C T) → (U → Copy C U) → T × U → Copy C (T × U)
    copy_both f g x = do a ← f x.0; b ← g x.1; pure (a, b)

    pub Both-Copies :
        (f : T → Copy C T) (g : U → Copy C U)
        → Copies d f
        → Copies e g
        → Copies Both (copy_both f g)
    Both-Copies f g c k = record {
      copied = λ m x h.
          let first = c.copied m x.0 h.0 in
          let n = (f x.0 m).1 in
          let second = k.copied n x.1 (Within-Grows e m n x.1 first.grows h.1) in
          let o = (g x.1 n).1 in
          let a = Copied-Grows d m n o x.0 (f x.0 m).0 first second.grows in
          let b = Copied-since e m n o x.1 (g x.1 n).0 first.grows h.1 second in
          record {
            grows = a.grows;
            equal = λ i. (a.equal i, b.equal i);
            fresh = (a.fresh, b.fresh);
          };
    }

  -- A struct by the tuple of its fields.
  module _ {T U V : Type 0} (to : T → U) (d : Deep C U V) where
    abbrev pub Fields : Deep C T V
    Fields = record {
      view = λ x m. d.view (to x) m;
      Within = λ S m x. d.Within S m (to x);
      same_view = λ S m n x h same. d.same_view S m n (to x) h same;
      same_within = λ S m n x h same. d.same_within S m n (to x) h same;
      wider = λ S R m x sub h. d.wider S R m (to x) sub h;
    }

    pub Fields-Copies :
        (f : U → Copy C U) (copy_into : T → Copy C T)
        → ((x : T) (m : Memory C) → f (to x) m ≡ (to (copy_into x m).0, (copy_into x m).1))
        → Copies d f
        → Copies Fields copy_into
    Fields-Copies f copy_into e c = record {
      copied = λ m x h.
          let k =
            subst (λ (r : U × Memory C). Copied d m (to x) r.0 r.1) (e x m) (c.copied m (to x) h) in
          record { grows = k.grows; equal = k.equal; fresh = k.fresh };
    }
