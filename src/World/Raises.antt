-- ===== src/World/Raises.antt =====
-- What an action that is sure to raise has done by then.
use tradingchassis_ops_lab.Base.{◌≡◌, refl}
use tradingchassis_ops_lab.World.Effects.{
  Exception, World, Result, ok, raised, Action, continue, recover, raise, ◌>>=◌, handle,
}
use tradingchassis_ops_lab.World.Returns.{Returns}

abbrev pub Raises : {A : Type 0} → Result A × World → (Exception → World → Type 0) → Type 0
Raises (ok _, _) P = ⊥
Raises (raised e, w) P = P e w

module _ {A B : Type 0} where
  Raises-continue_after :
      (r : Result A) (f : A → Action B) (w : World) (Q : A → World → Type 0)
      (P : Exception → World → Type 0)
      → Returns (r, w) Q
      → ((a : A) (w' : World) → Q a w' → Raises (f a w') P)
      → Raises (continue r f w) P
  Raises-continue_after (ok a) f w Q P q h = h a w q
  Raises-continue_after (raised e) f w Q P q h = absurd q

  -- The first action returns, and the rest raises.
  pub Raises-after :
      (m : Action A) (f : A → Action B) (w : World) (Q : A → World → Type 0)
      (P : Exception → World → Type 0)
      → Returns (m w) Q
      → ((a : A) (w' : World) → Q a w' → Raises (f a w') P)
      → Raises ((m >>= f) w) P
  unfolding ◌>>=◌
  Raises-after m f w Q P q h = Raises-continue_after (m w).0 f (m w).1 Q P q h

  Raises-continue_first :
      (r : Result A) (f : A → Action B) (w : World) (P : Exception → World → Type 0)
      → Raises (r, w) P
      → Raises (continue r f w) P
  Raises-continue_first (ok a) f w P h = absurd h
  Raises-continue_first (raised e) f w P h = h

  -- The first action raises, and the rest is not run.
  pub Raises-first :
      (m : Action A) (f : A → Action B) (w : World) (P : Exception → World → Type 0)
      → Raises (m w) P
      → Raises ((m >>= f) w) P
  unfolding ◌>>=◌
  Raises-first m f w P h = Raises-continue_first (m w).0 f (m w).1 P h

module _ {A : Type 0} where
  Raises-recover :
      (r : Result A) (h : Exception → Action A) (w : World) (Q P : Exception → World → Type 0)
      → Raises (r, w) Q
      → ((e : Exception) (w' : World) → Q e w' → Raises (h e w') P)
      → Raises (recover r h w) P
  Raises-recover (ok a) h w Q P q k = absurd q
  Raises-recover (raised e) h w Q P q k = k e w q

  -- The handler raises too.
  pub Raises-handle :
      (m : Action A) (h : Exception → Action A) (w : World) (Q P : Exception → World → Type 0)
      → Raises (m w) Q
      → ((e : Exception) (w' : World) → Q e w' → Raises (h e w') P)
      → Raises (handle m h w) P
  unfolding handle
  Raises-handle m h w Q P q k = Raises-recover (m w).0 h (m w).1 Q P q k

  Raises-at :
      (r : Result A) (w : World) {e : Exception}
      → r ≡ raised e
      → Raises (r, w) (λ x w'. (x ≡ e) × (w' ≡ w))
  Raises-at (ok b) w h = cc
  Raises-at (raised x) w h = (cc, refl)

  -- An action whose exception is known.
  pub Raises_of :
      (m : Action A) (w : World) {e : Exception}
      → (m w).0 ≡ raised e
      → Raises (m w) (λ x w'. (x ≡ e) × (w' ≡ (m w).1))
  Raises_of m w h = Raises-at (m w).0 (m w).1 h

pub Raises-raise :
    (A : Type 0) (e : Exception) (w : World) (P : Exception → World → Type 0)
    → P e w
    → Raises (raise {A = A} e w) P
unfolding raise
Raises-raise A e w P h = h

pub Raises-map :
    {A : Type 0} (x : Result A × World) (P Q : Exception → World → Type 0)
    → Raises x P
    → ((e : Exception) (w : World) → P e w → Q e w)
    → Raises x Q
Raises-map (ok a, w) P Q h k = h
Raises-map (raised e, w) P Q h k = k e w h
