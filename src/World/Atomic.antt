-- ===== src/World/Atomic.antt =====
-- Actions that leave a path alone when they raise, but for a write of it that breaks off.
use tradingchassis_ops_lab.Base.{
  Bool, true, false, ◌≡◌, refl, ap, sym, ◌∙◌, Option, none, some, ◌⊎◌, inl, inr, Bool-cases,
  if◌then◌else◌,
}
use tradingchassis_ops_lab.World.Content.{Content}
use tradingchassis_ops_lab.World.Effects.{
  FilePath, Exception, World, Result, ok, raised, Action, continue, pure, ◌>>=◌, os_error_as,
  convert, os_error, write_text, failed_write, torn, has_place, file, lift,
}
use tradingchassis_ops_lab.World.Frame.{same_path_self, Same, Same-refl, Same-trans, Spares}

-- A write of the path broke off: the file holds what it left.
pub record Torn (p : FilePath) (w w' : World) : Type 0 where
  pub rest : Content
  pub breaks : w.left p ≡ some rest
  pub holds : w'.entry p ≡ file rest

abbrev pub Kept : FilePath → World → World → Type 0
Kept p w w' = Same p w w' ⊎ Torn p w w'

pub record Atomic (p : FilePath) {A : Type 0} (m : Action A) : Type 0 where
  pub at : (w : World) (e : Exception) → (m w).0 ≡ raised e → Kept p w (m w).1

Kept-after : {p : FilePath} {u v w : World} → Same p u v → Kept p v w → Kept p u w
Kept-after h (inl k) = inl (Same-trans h k)
Kept-after {p} h (inr t) =
    inr (record {
      rest = t.rest;
      breaks = sym (ap (λ f. f p) h.left_same) ∙ t.breaks;
      holds = t.holds;
    })

module _ {p : FilePath} {A B : Type 0} where
  pub Atomic-continue :
      (r : Result A) (f : A → Action B) (u w : World)
      → Same p u w
      → ((a : A) → r ≡ ok a → Atomic p (f a))
      → (e : Exception) → (continue r f w).0 ≡ raised e
      → Kept p u (continue r f w).1
  Atomic-continue (ok a) f u w h k e q = Kept-after h ((k a refl).at w e q)
  Atomic-continue (raised x) f u w h k e q = inl h

  -- Actions that spare the path may come before one that is atomic.
  pub Atomic-bind :
      (m : Action A) (f : A → Action B)
      → Spares p m
      → ((a : A) → Atomic p (f a))
      → Atomic p (m >>= f)
  unfolding ◌>>=◌
  Atomic-bind m f km kf = record {
    at = λ w. Atomic-continue (m w).0 f w (m w).1 (km.at w) (λ a _. kf a);
  }

  pub Atomic-bind-lift :
      (r : Result A) (f : A → Action B)
      → ((a : A) → r ≡ ok a → Atomic p (f a))
      → Atomic p (lift r >>= f)
  unfolding ◌>>=◌
  Atomic-bind-lift r f k = record { at = λ w. Atomic-continue r f w w (Same-refl p w) k }

  Kept-continue-pure :
      (r : Result A) (g : A → B) (u w : World)
      → ((e : Exception) → r ≡ raised e → Kept p u w)
      → (e : Exception) → (continue r (λ a. pure (g a)) w).0 ≡ raised e
      → Kept p u (continue r (λ a. pure (g a)) w).1
  unfolding pure
  Kept-continue-pure (ok a) g u w k e q = absurd (ok-ne-raised _ _ q)
    where
      ok-ne-raised : (b : B) (e : Exception) → ok b ≡ raised e → ⊥
      ok-ne-raised b e q = cc
  Kept-continue-pure (raised x) g u w k e q = k x refl

  -- An atomic action may come before a value that is returned.
  pub Atomic-bind-pure : (m : Action A) (g : A → B) → Atomic p m → Atomic p (m >>= λ a. pure (g a))
  unfolding ◌>>=◌
  Atomic-bind-pure m g k = record { at = λ w. Kept-continue-pure (m w).0 g w (m w).1 (k.at w) }

module _ {A : Type 0} where
  raised_of_convert :
      (x : Exception) (r : Result A) (e : Exception)
      → convert x r ≡ raised e
      → (e' : Exception) × (r ≡ raised e')
  raised_of_convert x (ok a) e q = cc
  raised_of_convert x (raised y) e q = (y, refl)

module _ {p : FilePath} {A : Type 0} where
  pub Atomic-os_error_as : (x : Exception) (m : Action A) → Atomic p m → Atomic p (os_error_as x m)
  unfolding os_error_as
  Atomic-os_error_as x m k = record {
    at = λ w e q. let (y, raises) = raised_of_convert x (m w).0 e q in k.at w y raises;
  }

module _ (p : FilePath) where
  Kept-torn : (w : World) (o : Option Content) → w.left p ≡ o → Kept p w (torn w p o)
  Kept-torn w none l = inl (Same-refl p w)
  Kept-torn w (some c) l = elim (Bool-cases (has_place w p)) [
    | inl there ↦
        rw there (inr (record { rest = c; breaks = l; holds = rw (same_path_self p) refl }))
    | inr nowhere ↦ rw nowhere (inl (Same-refl p w))
  ]

  Kept-if_ok :
      (b : Bool) (x : Result (Unit {0}) × World) (w w' : World) (e e' : Exception)
      → x.0 ≡ ok tt
      → Kept p w w'
      → (◌≡◌ {A = Result (Unit {0})}
          (if◌then◌else◌ {A = Result (Unit {0}) × World} b x (raised e', w')).0
          (raised e))
      → Kept p w (if◌then◌else◌ {A = Result (Unit {0}) × World} b x (raised e', w')).1
  Kept-if_ok true x w w' e e' okay k h = cc
  Kept-if_ok false x w w' e e' okay k h = k

  pub Atomic-write_text : (c : Content) → Atomic p (write_text p c)
  unfolding write_text
  Atomic-write_text c = record {
    at = λ w e h.
        Kept-if_ok _ _ w (failed_write p w) e os_error refl (Kept-torn w (w.left p) refl) h;
  }
