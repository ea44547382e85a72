-- ===== src/World/Folders.antt =====
-- Making a folder, copying a file and resolving a path spare the other paths.
use tradingchassis_ops_lab.Base.{◌≡◌, false}
use tradingchassis_ops_lab.World.Effects.{
  FilePath, same_path, Exception, dir, copy2, mkdir, resolve, write_text, message_of,
}
use tradingchassis_ops_lab.World.Frame.{
  Same-refl, Same-if, Same-set_entry, Spares, Spares-write_text, Same-continue,
}

module _ {p : FilePath} where
  pub Spares-resolve : (q : FilePath) → Spares p (resolve q)
  unfolding resolve
  Spares-resolve q = record { at = λ w. Same-refl p w }

  pub Spares-message_of : (e : Exception) → Spares p (message_of e)
  unfolding message_of
  Spares-message_of e = record { at = λ w. Same-refl p w }

  pub Spares-mkdir : (q : FilePath) → same_path p q ≡ false → Spares p (mkdir q)
  unfolding mkdir
  Spares-mkdir q h = record {
    at = λ w. Same-if _ _ _ w (Same-set_entry p q dir w h) (Same-refl p w);
  }

  pub Spares-copy2 : (q r : FilePath) → same_path p r ≡ false → Spares p (copy2 q r)
  unfolding copy2
  Spares-copy2 q r h = record {
    at = λ w.
        Same-if (w.unreadable q) _ _ w (Same-refl p w)
          (Same-continue _ (write_text r) w w (Same-refl p w) (λ c. Spares-write_text r c h));
  }
