-- ===== src/Prelude/Paths.antt =====
-- What the code uses of the package path of Go, on the bytes of a path.
use Prim.Native.Nat.{ℕ}
use mathlib.Core.Path.{◌≡◌, refl, ap, ◌∙◌, subst}
use mathlib.Core.List.{[], ◌∷◌, ◌++◌, append_assoc}
use mathlib.Core.Option.{none, some}
use native.Mathlib.Omega.{arith}
use rtp_http_flv.Prelude.Tests.{◌==◌, if◌then◌else◌}
use rtp_http_flv.Prelude.Lists.{drop}
use rtp_http_flv.Prelude.Dicts.{Text}
use rtp_http_flv.Prelude.Strings.{from_last, Without, from_last-append}

abbrev pub slash : ℕ
slash = b'/'

abbrev pub dot : ℕ
dot = b'.'

-- strings.TrimRight(s, c) with one character
abbrev cons_unless : ℕ → ℕ → Text → Text
cons_unless c x [] = if x == c then [] else x ∷ []
cons_unless c x (y ∷ s) = x ∷ y ∷ s

abbrev trim_right : ℕ → Text → Text
trim_right c [] = []
trim_right c (x ∷ s) = cons_unless c x (trim_right c s)

-- The part behind the last slash.
abbrev last_part : Text → Text
last_part s = elim (from_last slash s) [ none ↦ s | some t ↦ drop 1 t ]

-- path.Ext
abbrev part_ext : Text → Text
part_ext s = elim (from_last dot s) [ none ↦ [] | some e ↦ e ]

unfoldable pub ext : Text → Text
ext s = part_ext (last_part s)

abbrev trimmed_base : Text → Text
trimmed_base [] = slash ∷ []
trimmed_base (x ∷ s) = last_part (x ∷ s)

-- path.Base
unfoldable pub base : Text → Text
base [] = dot ∷ []
base (x ∷ s) = trimmed_base (trim_right slash (x ∷ s))

trim_right-Without : (c x : ℕ) (t : Text) → Without c (x ∷ t) → trim_right c (x ∷ t) ≡ x ∷ t
trim_right-Without c x [] w = ground (arith, w.0)
trim_right-Without c x (y ∷ t) w = rw (trim_right-Without c y t w.1) refl

trim_right-append :
    (c x : ℕ) (s t : Text) → Without c (x ∷ t) → trim_right c (s ++ x ∷ t) ≡ s ++ x ∷ t
trim_right-append c x [] t w = trim_right-Without c x t w
trim_right-append c x (y ∷ []) t w = rw (trim_right-append c x [] t w) refl
trim_right-append c x (y ∷ z ∷ s) t w = rw (trim_right-append c x (z ∷ s) t w) refl

last_part-append : (s t : Text) → Without slash t → last_part (s ++ slash ∷ t) ≡ t
last_part-append s t w = rw (last_part, from_last-append slash s t w) refl

-- The last part of a path, if it is not empty.
pub base-append :
    (s : Text) (x : ℕ) (t : Text) → Without slash (x ∷ t) → base (s ++ slash ∷ x ∷ t) ≡ x ∷ t
unfolding base
base-append s x t w =
    let whole : (s ++ slash ∷ []) ++ x ∷ t ≡ s ++ slash ∷ x ∷ t =
      append_assoc s (slash ∷ []) (x ∷ t) in
    let kept : trim_right slash (s ++ slash ∷ x ∷ t) ≡ s ++ slash ∷ x ∷ t =
      subst (λ p. trim_right slash p ≡ p) whole (trim_right-append slash x (s ++ slash ∷ []) t w) in
    start s kept
  where
    start :
        (s' : Text)
        → trim_right slash (s' ++ slash ∷ x ∷ t) ≡ s' ++ slash ∷ x ∷ t
        → base (s' ++ slash ∷ x ∷ t) ≡ x ∷ t
    start [] k = rw k (last_part-append [] (x ∷ t) w)
    start (y ∷ s') k = rw k (last_part-append (y ∷ s') (x ∷ t) w)

-- The extension of a path.
pub ext-append :
    (s u e : Text)
    → Without slash (u ++ dot ∷ e)
    → Without dot e
    → ext (s ++ slash ∷ (u ++ dot ∷ e)) ≡ dot ∷ e
unfolding ext
ext-append s u e w v =
    ap part_ext (last_part-append s (u ++ dot ∷ e) w)
    ∙ rw (part_ext, from_last-append dot u e v) refl
