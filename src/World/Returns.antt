-- ===== src/World/Returns.antt =====
-- What an action is sure to establish: it returns, and its value and the world after it satisfy a
-- predicate.
use tradingchassis_ops_lab.Base.{◌≡◌, refl, ap, ◌∙◌, Bool, true, false, if◌then◌else◌}
use tradingchassis_ops_lab.World.Effects.{
  Exception, World, Result, ok, raised, Action, continue, recover, pure, ◌>>=◌, handle,
}

abbrev pub Returns : {A : Type 0} → Result A × World → (A → World → Type 0) → Type 0
Returns (ok a, w) P = P a w
Returns (raised _, _) P = ⊥

module _ {A B : Type 0} where
  Returns-continue :
      (r : Result A) (f : A → Action B) (w : World) (Q : A → World → Type 0)
      (P : B → World → Type 0)
      → Returns (r, w) Q
      → ((a : A) (w' : World) → Q a w' → Returns (f a w') P)
      → Returns (continue r f w) P
  Returns-continue (ok a) f w Q P q h = h a w q
  Returns-continue (raised e) f w Q P q h = q

  pub Returns-bind :
      (m : Action A) (f : A → Action B) (w : World) (Q : A → World → Type 0)
      (P : B → World → Type 0)
      → Returns (m w) Q
      → ((a : A) (w' : World) → Q a w' → Returns (f a w') P)
      → Returns ((m >>= f) w) P
  unfolding ◌>>=◌
  Returns-bind m f w Q P q h = Returns-continue (m w).0 f (m w).1 Q P q h

module _ {A : Type 0} where
  Returns-at :
      (r : Result A) (w : World) {a : A} → r ≡ ok a → Returns (r, w) (λ b w'. (b ≡ a) × (w' ≡ w))
  Returns-at (ok b) w e = (cc, refl)
  Returns-at (raised x) w e = cc

  -- An action whose result is known.
  pub Returns_of :
      (m : Action A) (w : World) {a : A}
      → (m w).0 ≡ ok a
      → Returns (m w) (λ b w'. (b ≡ a) × (w' ≡ (m w).1))
  Returns_of m w e = Returns-at (m w).0 (m w).1 e

  pub Returns-pure : (a : A) (w : World) (P : A → World → Type 0) → P a w → Returns (pure a w) P
  unfolding pure
  Returns-pure a w P h = h

  -- The handler of an action that returns is not run.
  pub Returns-handle :
      (m : Action A) (h : Exception → Action A) (w : World) (P : A → World → Type 0)
      → Returns (m w) P
      → Returns (handle m h w) P
  unfolding handle
  Returns-handle m h w P q = Returns-recover (m w).0 (m w).1 q
    where
      Returns-recover : (r : Result A) (w' : World) → Returns (r, w') P → Returns (recover r h w') P
      Returns-recover (ok a) w' q = q
      Returns-recover (raised e) w' q = absurd q

  pub Returns-if :
      (b : Bool) (m n : Action A) (w : World) (P : A → World → Type 0)
      → (b ≡ true → Returns (m w) P)
      → (b ≡ false → Returns (n w) P)
      → Returns ((if b then m else n) w) P
  Returns-if true m n w P h k = h refl
  Returns-if false m n w P h k = k refl

-- A first action whose outcome is known.
pub bind-eq :
    {A B : Type 0} (m : Action A) (f : A → Action B) (w : World) {a : A} {w' : World}
    → m w ≡ (ok a, w')
    → (m >>= f) w ≡ f a w'
unfolding ◌>>=◌
bind-eq m f w e = rw e refl

pub Returns-after :
    {A B : Type 0} (m : Action A) (f : A → Action B) (w : World) (P : B → World → Type 0) {a : A}
    {w' : World}
    → m w ≡ (ok a, w')
    → Returns (f a w') P
    → Returns ((m >>= f) w) P
Returns-after m f w P e h = rw (bind-eq m f w e) h

pub pair-eq :
    {A : Type 0} (x : Result A × World) {r : Result A} {w : World} → x.0 ≡ r → x.1 ≡ w → x ≡ (r, w)
pair-eq (r, w) e h = cc

pub Returns-map :
    {A : Type 0} (x : Result A × World) (P Q : A → World → Type 0)
    → Returns x P
    → ((a : A) (w : World) → P a w → Q a w)
    → Returns x Q
Returns-map (ok a, w) P Q h k = k a w h
Returns-map (raised e, w) P Q h k = h

-- Two worlds in which each step has the same outcome.
pub result-bind :
    {A B : Type 0} (m : Action A) (f : A → Action B) (v w : World)
    → (m v).0 ≡ (m w).0
    → ((a : A) (v' w' : World) → (f a v').0 ≡ (f a w').0)
    → ((m >>= f) v).0 ≡ ((m >>= f) w).0
unfolding ◌>>=◌
result-bind m f v w e h = result-continue (m v).0 (m w).0 f (m v).1 (m w).1 e h
  where
    result-continue :
        {A B : Type 0} (r s : Result A) (f : A → Action B) (v w : World)
        → r ≡ s
        → ((a : A) (v' w' : World) → (f a v').0 ≡ (f a w').0)
        → (continue r f v).0 ≡ (continue s f w).0
    result-continue (ok a) (ok b) f v w e h = ap (λ r. (continue r f v).0) e ∙ h b v w
    result-continue (ok a) (raised x) f v w e h = cc
    result-continue (raised x) (ok b) f v w e h = cc
    result-continue (raised x) (raised y) f v w e h = cc

-- What is known of the world after the action joins what the action establishes.
pub Returns-and :
    {A : Type 0} (x : Result A × World) (P : A → World → Type 0) (R : World → Type 0)
    → Returns x P
    → R x.1
    → Returns x (λ a w. P a w × R w)
Returns-and (ok a, w) P R h k = (h, k)
Returns-and (raised e, w) P R h k = h
