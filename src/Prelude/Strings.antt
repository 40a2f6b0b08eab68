-- ===== src/Prelude/Strings.antt =====
-- What the code uses of the packages strings and path of Go, on the bytes of a text.
use Prim.Native.Nat.{ℕ, ◌-◌}
use mathlib.Core.Path.{◌≡◌, refl}
use mathlib.Core.Logic.{◌≢◌}
use mathlib.Core.Bool.{Bool, true, false, ◌&&◌}
use mathlib.Core.List.{List, [], ◌∷◌, ◌++◌}
use mathlib.Core.Option.{Option, none, some}
use native.Mathlib.Omega.{arith}
use rtp_http_flv.Prelude.Tests.{◌==◌, leb, if◌then◌else◌}
use rtp_http_flv.Prelude.Lists.{
  length, take, drop, length-append, take-append_self, drop-append_self, All,
}
use rtp_http_flv.Prelude.Dicts.{Text, text_beq, text_beq_iff}

-- strings.TrimLeft(s, c) with one character
abbrev pub trim_left : ℕ → Text → Text
trim_left c [] = []
trim_left c (x ∷ s) = if x == c then trim_left c s else x ∷ s

-- strings.TrimSuffix
unfoldable pub trim_suffix : Text → Text → Text
trim_suffix s suffix =
    if leb (length suffix) (length s) && text_beq (drop (length s - length suffix) s) suffix
    then take (length s - length suffix) s
    else s

-- strings.SplitN(s, c, 2) with one character
abbrev pub before : ℕ → Text → Text
before c [] = []
before c (x ∷ s) = if x == c then [] else x ∷ before c s

abbrev pub behind : ℕ → Text → Option Text
behind c [] = none
behind c (x ∷ s) = if x == c then some s else behind c s

abbrev pub split_2 : ℕ → Text → List Text
split_2 c s = elim (behind c s) [ none ↦ s ∷ [] | some t ↦ before c s ∷ t ∷ [] ]

-- s[strings.LastIndex(s, c):] with one character; `none` for -1
abbrev pub from_last : ℕ → Text → Option Text
from_last c [] = none
from_last c (x ∷ s) = elim (from_last c s) [
  | some t ↦ some t
  | none ↦ (if x == c then some (x ∷ s) else none)
]

-- No byte of the text is `c`.
abbrev pub Without : ℕ → Text → Type 0
Without c s = All (λ x. x ≢ c) s

pub from_last-Without : (c : ℕ) (s : Text) → Without c s → from_last c s ≡ none
from_last-Without c [] w = refl
from_last-Without c (x ∷ s) w = ground (arith, from_last-Without c s w.1)

-- The last `c` of a text that ends with `c` and a part without it.
pub from_last-append : (c : ℕ) (s t : Text) → Without c t → from_last c (s ++ c ∷ t) ≡ some (c ∷ t)
from_last-append c [] t w = ground (arith, from_last-Without c t w)
from_last-append c (x ∷ s) t w = ground (arith, from_last-append c s t w)

pub trim_suffix-append : (s suffix : Text) → trim_suffix (s ++ suffix) suffix ≡ s
unfolding trim_suffix
trim_suffix-append s suffix =
    let n : length (s ++ suffix) - length suffix ≡ length s =
      omega (arith, length-append s suffix) in
    let fits : leb (length suffix) (length (s ++ suffix)) ≡ true =
      ground (arith, length-append s suffix) in
    let same : text_beq suffix suffix ≡ true = (text_beq_iff suffix suffix).1 refl in
    rw (n, fits, drop-append_self s suffix, same, take-append_self s suffix) refl

-- The parts of a text round its first `c`.
pub behind-append : (c : ℕ) (s t : Text) → Without c s → behind c (s ++ c ∷ t) ≡ some t
behind-append c [] t w = ground arith
behind-append c (x ∷ s) t w = ground (arith, behind-append c s t w.1)

pub before-append : (c : ℕ) (s t : Text) → Without c s → before c (s ++ c ∷ t) ≡ s
before-append c [] t w = ground arith
before-append c (x ∷ s) t w = ground (arith, before-append c s t w.1)

pub split_2-append : (c : ℕ) (s t : Text) → Without c s → split_2 c (s ++ c ∷ t) ≡ s ∷ t ∷ []
split_2-append c s t w = rw (split_2, behind-append c s t w, before-append c s t w) refl

-- strings.SplitN(s, c, 3) with one character
abbrev pub split_3 : ℕ → Text → List Text
split_3 c s = elim (behind c s) [ none ↦ s ∷ [] | some t ↦ before c s ∷ split_2 c t ]

pub split_3-append :
    (c : ℕ) (s t u : Text)
    → Without c s
    → Without c t
    → split_3 c (s ++ c ∷ (t ++ c ∷ u)) ≡ s ∷ t ∷ u ∷ []
split_3-append c s t u w v =
    rw
      (
        split_3,
        behind-append c s (t ++ c ∷ u) w,
        before-append c s (t ++ c ∷ u) w,
        split_2-append c t u v,
      )
      refl

abbrev pub is_prefix : Text → Text → Bool
is_prefix [] s = true
is_prefix (a ∷ p) [] = false
is_prefix (a ∷ p) (b ∷ s) = a == b && is_prefix p s

-- strings.Split(s, sep)[0] for a separator that is not empty
abbrev pub until : Text → Text → Text
until sep [] = []
until sep (x ∷ s) = let rest = until sep s in if is_prefix sep (x ∷ s) then [] else x ∷ rest

is_prefix_refl : (s : Text) → is_prefix s s ≡ true
is_prefix_refl [] = refl
is_prefix_refl (x ∷ s) = ground (arith, is_prefix_refl s)

pub until-append : (c : ℕ) (s sep : Text) → Without c s → until (c ∷ sep) (s ++ c ∷ sep) ≡ s
until-append c [] sep w = rw (until, is_prefix_refl (c ∷ sep)) refl
until-append c (x ∷ s) sep w = ground (arith, until-append c s sep w.1, w.0)

pub Without-append : (c : ℕ) (s t : Text) → Without c s → Without c t → Without c (s ++ t)
Without-append c [] t w v = v
Without-append c (x ∷ s) t w v = (w.0, Without-append c s t w.1 v)

pub trim_left-append :
    (c : ℕ) (s t : Text) → s ≢ [] → Without c s → trim_left c (c ∷ (s ++ t)) ≡ s ++ t
trim_left-append c [] t n w = absurd (n refl)
trim_left-append c (x ∷ s) t n w = ground (arith, w.0)
