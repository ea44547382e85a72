-- ===== src/World/Frame.antt =====
-- What an action leaves alone: one path, and the host with its clock and permissions.
use tradingchassis_ops_lab.Base.{◌<◌, ◌≡◌, refl, ◌∙◌, Bool, true, false, [], ◌∷◌}
use tradingchassis_ops_lab.Base.{
  if◌then◌else◌, length, eq_iff, arith, Option, none, some, Bool-cases, inl, inr,
}
use tradingchassis_ops_lab.Base.Json.{Json}
use tradingchassis_ops_lab.World.Content.{Content}
use tradingchassis_ops_lab.World.Effects.{
  FilePath, same_path, Entry, absent, dir, file, Exception, World, Result, ok, raised, Action,
  has_place, torn, continue, pure, raise, lift, os_error_as, ◌>>=◌, exists, is_file, is_dir,
  set_entry, read_text, write_text, append_text, make_dir, make_dirs, utc_now_iso8601, uuid4,
  read_json,
}

pub record Same (p : FilePath) (w w' : World) : Type 0 where
  pub entry_same : w'.entry p ≡ w.entry p
  pub unreadable_same : w'.unreadable ≡ w.unreadable
  pub unwritable_same : w'.unwritable ≡ w.unwritable
  pub env_same : w'.env ≡ w.env
  pub clock_same : w'.clock ≡ w.clock
  pub uuids_same : w'.uuids ≡ w.uuids
  pub left_same : w'.left ≡ w.left

pub Same-refl : (p : FilePath) (w : World) → Same p w w
Same-refl p w = record {
  entry_same = refl;
  unreadable_same = refl;
  unwritable_same = refl;
  env_same = refl;
  clock_same = refl;
  uuids_same = refl;
  left_same = refl;
}

pub Same-trans : {p : FilePath} {u v w : World} → Same p u v → Same p v w → Same p u w
Same-trans h k = record {
  entry_same = k.entry_same ∙ h.entry_same;
  unreadable_same = k.unreadable_same ∙ h.unreadable_same;
  unwritable_same = k.unwritable_same ∙ h.unwritable_same;
  env_same = k.env_same ∙ h.env_same;
  clock_same = k.clock_same ∙ h.clock_same;
  uuids_same = k.uuids_same ∙ h.uuids_same;
  left_same = k.left_same ∙ h.left_same;
}

-- The action spares the path `p`, whether it returns or raises.
pub record Spares (p : FilePath) {A : Type 0} (m : Action A) : Type 0 where
  pub at : (w : World) → Same p w (m w).1

pub Same-set_entry :
    (p q : FilePath) (e : Entry) (w : World) → same_path p q ≡ false → Same p w (set_entry q e w)
Same-set_entry p q e w h = record {
  entry_same = rw h;
  unreadable_same = refl;
  unwritable_same = refl;
  env_same = refl;
  clock_same = refl;
  uuids_same = refl;
  left_same = refl;
}

-- A write that fails changes no other path.
Same-torn :
    (p q : FilePath) (w : World) (c : Option Content)
    → same_path p q ≡ false
    → Same p w (torn w q c)
Same-torn p q w none h = Same-refl p w
Same-torn p q w (some c) h = elim (Bool-cases (has_place w q)) [
  | inl there ↦ rw there (Same-set_entry p q (file c) w h)
  | inr nowhere ↦ rw nowhere (Same-refl p w)
]

pub same_path_longer : (p q : FilePath) → length q < length p → same_path p q ≡ false
same_path_longer [] [] h = absurd (omega arith)
same_path_longer [] (_ ∷ _) h = absurd (omega arith)
same_path_longer (_ ∷ _) [] h = refl
same_path_longer (s ∷ p) (t ∷ q) h = ground (arith, same_path_longer p q (omega arith))

pub same_path_self : (p : FilePath) → same_path p p ≡ true
same_path_self [] = refl
same_path_self (s ∷ p) = ground (arith, eq_iff s s, same_path_self p)

module _ {p : FilePath} {A : Type 0} where
  pub Spares-pure : (a : A) → Spares p (pure a)
  unfolding pure
  Spares-pure a = record { at = λ w. Same-refl p w }

  pub Spares-raise : (e : Exception) → Spares p (raise {A = A} e)
  unfolding raise
  Spares-raise e = record { at = λ w. Same-refl p w }

  pub Spares-lift : (r : Result A) → Spares p (lift r)
  unfolding lift
  Spares-lift r = record { at = λ w. Same-refl p w }

  pub Spares-os_error_as : (e : Exception) (m : Action A) → Spares p m → Spares p (os_error_as e m)
  unfolding os_error_as
  Spares-os_error_as e m k = record { at = λ w. k.at w }

  pub Spares-if :
      (b : Bool) (m n : Action A) → Spares p m → Spares p n → Spares p (if b then m else n)
  Spares-if true m n km kn = km
  Spares-if false m n km kn = kn

module _ {p : FilePath} {A B : Type 0} where
  pub Same-continue :
      (r : Result A) (f : A → Action B) (u w : World)
      → Same p u w
      → ((a : A) → Spares p (f a))
      → Same p u (continue r f w).1
  Same-continue (ok a) f u w h k = Same-trans h ((k a).at w)
  Same-continue (raised e) f u w h k = h

  pub Spares-bind :
      (m : Action A) (f : A → Action B)
      → Spares p m
      → ((a : A) → Spares p (f a))
      → Spares p (m >>= f)
  unfolding ◌>>=◌
  Spares-bind m f km kf = record { at = λ w. Same-continue (m w).0 f w (m w).1 (km.at w) kf }

  -- The rest of the block may use that `r` did not raise.
  pub Spares-bind-lift :
      (r : Result A) (f : A → Action B)
      → ((a : A) → r ≡ ok a → Spares p (f a))
      → Spares p (lift r >>= f)
  unfolding ◌>>=◌
  Spares-bind-lift (ok a) f k = record { at = λ w. (k a refl).at w }
  Spares-bind-lift (raised e) f k = record { at = λ w. Same-refl p w }

module _ {p : FilePath} where
  pub Spares-exists : (q : FilePath) → Spares p (exists q)
  unfolding exists
  Spares-exists q = record { at = λ w. Same-refl p w }

  pub Spares-is_file : (q : FilePath) → Spares p (is_file q)
  unfolding is_file
  Spares-is_file q = record { at = λ w. Same-refl p w }

  pub Spares-is_dir : (q : FilePath) → Spares p (is_dir q)
  unfolding is_dir
  Spares-is_dir q = record { at = λ w. Same-refl p w }

  pub Spares-utc_now_iso8601 : Spares p utc_now_iso8601
  unfolding utc_now_iso8601
  Spares-utc_now_iso8601 = record {
    at = λ w. record {
      entry_same = refl;
      unreadable_same = refl;
      unwritable_same = refl;
      env_same = refl;
      clock_same = refl;
      uuids_same = refl;
      left_same = refl;
    };
  }

  pub Spares-uuid4 : Spares p uuid4
  unfolding uuid4
  Spares-uuid4 = record {
    at = λ w. record {
      entry_same = refl;
      unreadable_same = refl;
      unwritable_same = refl;
      env_same = refl;
      clock_same = refl;
      uuids_same = refl;
      left_same = refl;
    };
  }

  pub Same-if :
      {A : Type 0} (b : Bool) (x y : Result A × World) (w : World)
      → Same p w x.1
      → Same p w y.1
      → Same p w (if b then x else y).1
  Same-if true x y w h k = h
  Same-if false x y w h k = k

  pub Spares-read_text : (q : FilePath) → Spares p (read_text q)
  unfolding read_text
  Spares-read_text q = record {
    at = λ w. Same-if (w.unreadable q) _ _ w (Same-refl p w) (Same-refl p w);
  }

  pub Spares-read_json : (e : Exception) (q : FilePath) → Spares p (read_json e q)
  Spares-read_json e q =
      unfold read_json in
      Spares-bind _ _ (Spares-os_error_as e _ (Spares-read_text q)) (λ c. Spares-lift _)

  pub Spares-write_text :
      (q : FilePath) (c : Content) → same_path p q ≡ false → Spares p (write_text q c)
  unfolding write_text
  Spares-write_text q c h = record {
    at = λ w. Same-if _ _ _ w (Same-set_entry p q _ w h) (Same-torn p q w (w.left q) h);
  }

  pub Spares-append_text :
      (q : FilePath) (v : Json) → same_path p q ≡ false → Spares p (append_text q v)
  unfolding append_text
  Spares-append_text q v h = record {
    at = λ w. Same-if _ _ _ w (Same-set_entry p q _ w h) (Same-torn p q w (w.left q) h);
  }

  Same-make_dir_at :
      (q : FilePath) (w : World) (e : Entry)
      → w.entry q ≡ e
      → same_path p q ≡ false
      → Same p w (make_dir q w).1
  unfolding make_dir
  Same-make_dir_at q w absent is h =
      rw (is, make_dir)
        (Same-if (w.unwritable q) _ _ w (Same-refl p w) (Same-set_entry p q dir w h))
  Same-make_dir_at q w dir is h = rw (is, make_dir) (Same-refl p w)
  Same-make_dir_at q w (file c) is h = rw (is, make_dir) (Same-refl p w)

  -- No folder is made below its path: every longer path is spared.
  pub Spares-make_dirs : (q : FilePath) → length q < length p → Spares p (make_dirs q)
  unfolding make_dirs
  Spares-make_dirs [] h = record { at = λ w. Same-refl p w }
  Spares-make_dirs (s ∷ q) h =
      Spares-bind (make_dirs q) (λ _. make_dir (s ∷ q)) (Spares-make_dirs q (omega arith))
        (λ _. record { at = λ w. Same-make_dir_at (s ∷ q) w _ refl (same_path_longer p (s ∷ q) h) })

pub ruleset spares = (
  Spares-pure, Spares-raise, Spares-lift, Spares-os_error_as, Spares-if, Spares-bind, Spares-exists,
  Spares-is_file, Spares-is_dir, Spares-utc_now_iso8601, Spares-uuid4, Spares-read_text,
  Spares-read_json,
)
