-- ===== src/Cache/Window/Skip.antt =====
-- Giving up on the packets that are missing at the head of a window.
use rtp_http_flv.Prelude.{
  ℕ, ◌≤◌, ◌<◌, ◌≡◌, refl, Bool, true, false, none, some, List, [], ◌∷◌, length, arith, drop,
}
use rtp_http_flv.Utils.Seq.{add16}
use rtp_http_flv.Cache.Window.{Slot, IsWindow, IsWindow-tail, head_nils, EndsWithPacket}

-- Is the first packet there?
abbrev pub first_held : List Slot → Bool
first_held [] = false
first_held (none ∷ xs) = false
first_held (some p ∷ xs) = true

-- The window from its first packet on.
abbrev pub skip_nils : ℕ → List Slot → ℕ × List Slot
skip_nils f [] = (f, [])
skip_nils f (none ∷ xs) = skip_nils (add16 f 1) xs
skip_nils f (some p ∷ xs) = (f, some p ∷ xs)

pub skip_nils-IsWindow :
    (f : ℕ) (xs : List Slot) → IsWindow f xs → IsWindow (skip_nils f xs).0 (skip_nils f xs).1
skip_nils-IsWindow f [] v = v
skip_nils-IsWindow f (none ∷ xs) v = skip_nils-IsWindow (add16 f 1) xs (IsWindow-tail f none xs v)
skip_nils-IsWindow f (some p ∷ xs) v = v

-- A window that is not empty and ends with a packet starts with one when its head has been skipped.
pub first_held-skip_nils :
    (f : ℕ) (xs : List Slot)
    → 0 < length xs
    → EndsWithPacket xs
    → first_held (skip_nils f xs).1 ≡ true
first_held-skip_nils f [] h e = absurd (omega arith)
first_held-skip_nils f (none ∷ []) h e = absurd e
first_held-skip_nils f (none ∷ y ∷ xs) h e =
    first_held-skip_nils (add16 f 1) (y ∷ xs) (omega arith) e
first_held-skip_nils f (some p ∷ xs) h e = refl

-- What is skipped are the empty slots, and nothing else.
pub skip_nils-drop : (f : ℕ) (xs : List Slot) → (skip_nils f xs).1 ≡ drop (head_nils xs) xs
skip_nils-drop f [] = refl
skip_nils-drop f (none ∷ xs) = skip_nils-drop (add16 f 1) xs
skip_nils-drop f (some p ∷ xs) = refl

pub length-skip_nils : (f : ℕ) (xs : List Slot) → length (skip_nils f xs).1 ≤ length xs
length-skip_nils f [] = omega arith
length-skip_nils f (none ∷ xs) = omega (arith, length-skip_nils (add16 f 1) xs)
length-skip_nils f (some p ∷ xs) = omega arith

-- The number of the slot behind the empty ones.
pub skip_nils-first :
    (f : ℕ) (xs : List Slot) → f < 65536 → (skip_nils f xs).0 ≡ add16 f (head_nils xs)
skip_nils-first f [] h = omega arith
skip_nils-first f (none ∷ xs) h = omega (arith, skip_nils-first (add16 f 1) xs (omega arith))
skip_nils-first f (some p ∷ xs) h = omega arith
