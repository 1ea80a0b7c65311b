-- ===== src/Keys/Keymap/Defaults.antt =====
-- The built-in chords.
use hwatu.Common.{ℕ, ◌≡◌, refl, true, some}
use hwatu.Common.Text.{codes, is_some, is_some→some}
use hwatu.Keys.Chords.{Gdk, parse}
use hwatu.Keys.Keymap.{Bindings, default_of, default_from, default_keymap}

-- GDK knows the key names that the built-in chords use.
pub record KnowsNames (G : Gdk) : Type 0 where
  pub left : (k : ℕ) × (G.from_name (codes "Left") ≡ some k)
  pub right : (k : ℕ) × (G.from_name (codes "Right") ≡ some k)
  pub f5 : (k : ℕ) × (G.from_name (codes "F5") ≡ some k)
  pub f11 : (k : ℕ) × (G.from_name (codes "F11") ≡ some k)
  pub plus : (k : ℕ) × (G.from_name (codes "plus") ≡ some k)
  pub equal : (k : ℕ) × (G.from_name (codes "equal") ≡ some k)
  pub minus : (k : ℕ) × (G.from_name (codes "minus") ≡ some k)

default_is_some : (G : Gdk) → KnowsNames G → is_some (default_keymap G) ≡ true
unfolding default_keymap default_from default_of parse
default_is_some G k =
    rw
      ((k.left).1, (k.right).1, (k.f5).1, (k.f5).1, (k.plus).1, (k.equal).1, (k.minus).1, (k.f11).1)
      refl

-- The built-in keymap does not panic: where GDK knows the key names it uses, every built-in chord
-- parses.
pub default_keymap-is_some :
    (G : Gdk) → KnowsNames G → (bs : Bindings) × (default_keymap G ≡ some bs)
default_keymap-is_some G k = is_some→some (default_keymap G) (default_is_some G k)
