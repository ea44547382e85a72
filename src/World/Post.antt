-- ===== src/World/Post.antt =====
-- What an action that returns has established.
use tradingchassis_ops_lab.Base.{
  ◌≡◌, refl, ap, Bool, true, false, if◌then◌else◌, Bool-cases, inl, inr,
}
use mathlib.Core.Path.{subst₂}
use tradingchassis_ops_lab.World.Content.{Content}
use tradingchassis_ops_lab.World.Frame.{same_path_self}
use tradingchassis_ops_lab.World.Effects.{
  FilePath, Exception, file, can_write, convert, os_error, os_error_as, write_text, pure, raise,
  World, Result, ok, raised, Action, continue, ◌>>=◌,
}

abbrev pub Post : {A : Type 0} → Result A × World → (A → World → Type 0) → Type 0
Post (ok a, w) P = P a w
Post (raised _, _) P = Unit

module _ {A B : Type 0} where
  Post-continue :
      (r : Result A) (f : A → Action B) (w : World) (P : B → World → Type 0)
      → ((a : A) → r ≡ ok a → Post (f a w) P)
      → Post (continue r f w) P
  Post-continue (ok a) f w P h = h a refl
  Post-continue (raised e) f w P h = tt

  -- The rest of a block may use what its first action returned.
  pub Post-bind :
      (m : Action A) (f : A → Action B) (w : World) (P : B → World → Type 0)
      → ((a : A) → (m w).0 ≡ ok a → Post (f a (m w).1) P)
      → Post ((m >>= f) w) P
  unfolding ◌>>=◌
  Post-bind m f w P h = Post-continue (m w).0 f (m w).1 P h

  Post-continue_then :
      (r : Result A) (f : A → Action B) (w : World) (Q : A → World → Type 0)
      (P : B → World → Type 0)
      → Post (r, w) Q
      → ((a : A) (w' : World) → Q a w' → Post (f a w') P)
      → Post (continue r f w) P
  Post-continue_then (ok a) f w Q P q h = h a w q
  Post-continue_then (raised e) f w Q P q h = tt

  -- The rest of a block may use what its first action has established.
  pub Post-then :
      (m : Action A) (f : A → Action B) (w : World) (Q : A → World → Type 0)
      (P : B → World → Type 0)
      → Post (m w) Q
      → ((a : A) (w' : World) → Q a w' → Post (f a w') P)
      → Post ((m >>= f) w) P
  unfolding ◌>>=◌
  Post-then m f w Q P q h = Post-continue_then (m w).0 f (m w).1 Q P q h

module _ {A : Type 0} where
  pub ok-injective : (a b : A) → ok a ≡ ok b → a ≡ b
  ok-injective a b e = cc

  -- What holds of every outcome that returns holds of this one.
  pub Post-use :
      (P : A → World → Type 0) (x : Result A × World) {a : A} {w : World}
      → Post x P
      → x ≡ (ok a, w)
      → P a w
  Post-use P (ok a, w) h e = subst₂ P (ok-injective _ _ (ap (λ x. x.0) e)) (ap (λ x. x.1) e) h
  Post-use P (raised x, w) h e = cc

module _ {A : Type 0} where
  Post-convert :
      (x : Exception) (r : Result A) (w : World) (P : A → World → Type 0)
      → Post (r, w) P
      → Post (convert x r, w) P
  Post-convert x (ok a) w P h = h
  Post-convert x (raised os_error) w P h = tt
  Post-convert x (raised _) w P h = tt

  pub Post-os_error_as :
      (x : Exception) (m : Action A) (w : World) (P : A → World → Type 0)
      → Post (m w) P
      → Post (os_error_as x m w) P
  unfolding os_error_as
  Post-os_error_as x m w P h = Post-convert x (m w).0 (m w).1 P h

  -- Where it is enough that every world in reach satisfies the conclusion.
  pub Post_of_all : (x : Result A × World) (P : A → World → Type 0) → ((a : A) → P a x.1) → Post x P
  Post_of_all (ok a, w) P h = h a
  Post_of_all (raised e, w) P h = tt

  pub Post-pure : (a : A) (w : World) (P : A → World → Type 0) → P a w → Post (pure a w) P
  unfolding pure
  Post-pure a w P h = h

  pub Post-raise : (e : Exception) (w : World) (P : A → World → Type 0) → Post (raise e w) P
  unfolding raise
  Post-raise e w P = tt

  pub Post-if :
      (b : Bool) (m n : Action A) (w : World) (P : A → World → Type 0)
      → (b ≡ true → Post (m w) P)
      → (b ≡ false → Post (n w) P)
      → Post ((if b then m else n) w) P
  Post-if true m n w P h k = h refl
  Post-if false m n w P h k = k refl

pub Post-map :
    {A : Type 0} (x : Result A × World) (P Q : A → World → Type 0)
    → Post x P
    → ((a : A) (w : World) → P a w → Q a w)
    → Post x Q
Post-map (ok a, w) P Q h k = k a w h
Post-map (raised e, w) P Q h k = tt

-- A write that returns has put the content there.
pub Post-write_text :
    (q : FilePath) (c : Content) (w : World) → Post (write_text q c w) (λ _ w'. w'.entry q ≡ file c)
unfolding write_text
Post-write_text q c w = elim (Bool-cases (can_write w q)) [
  | inl open_for_writing ↦ rw open_for_writing (rw (same_path_self q))
  | inr not_open ↦ rw not_open tt
]
