-- ===== src/Cache/Window.antt =====
-- What the queue of cache/RtpQueue.go promises, without its array list: a window on the stream of
-- packets, with a slot for every sequence number from the first one on, which is empty while the
-- packet is missing.
pub mod Skip
use rtp_http_flv.Prelude.{
  ℕ, zero, suc, ◌+◌, ◌-◌, ◌≤◌, ◌<◌, ◌%◌, ◌≡◌, ◌≢◌, refl, Option, none, some, List, [], ◌∷◌, ◌++◌,
  length, arith, ap, ◌∙◌, get_elem?, Bool, true, false, replicate, if◌then◌else◌, Bool-cases, inl,
  inr,
}
use rtp_http_flv.Rtp.{RtpPack}
use rtp_http_flv.Utils.Seq.{
  add16, sub16, first_before_second, relative, relative_bounds, relative-eq-sub16,
}
use rtp_http_flv.Cache.ArrayList.{set_or_append, remove_at}

abbrev pub Slot : Type 0
Slot = Option RtpPack

-- A packet goes into slot `i`; empty slots are made before it where the window is too short.
abbrev pub place : ℕ → RtpPack → List Slot → List Slot
place zero rp [] = some rp ∷ []
place (suc i) rp [] = none ∷ place i rp []
place zero rp (x ∷ xs) = some rp ∷ xs
place (suc i) rp (x ∷ xs) = x ∷ place i rp xs

-- Every packet is in the slot of its sequence number, where the first slot has number `f`.
abbrev pub InOrder : ℕ → List Slot → Type 0
InOrder f [] = Unit
InOrder f (none ∷ xs) = InOrder (add16 f 1) xs
InOrder f (some p ∷ xs) = (p.sequence_number ≡ f) × InOrder (add16 f 1) xs

abbrev pub Holds : Slot → Type 0
Holds none = ⊥
Holds (some p) = Unit

-- The last slot, if there is one, holds a packet.
abbrev pub EndsWithPacket : List Slot → Type 0
EndsWithPacket [] = Unit
EndsWithPacket (x ∷ []) = Holds x
EndsWithPacket (x ∷ y ∷ xs) = EndsWithPacket (y ∷ xs)

-- The empty slots at the head.
abbrev pub head_nils : List Slot → ℕ
head_nils [] = 0
head_nils (none ∷ xs) = suc (head_nils xs)
head_nils (some p ∷ xs) = 0

pub length-place :
    (i : ℕ) (rp : RtpPack) (xs : List Slot)
    → (suc i ≤ length (place i rp xs))
      × (length xs ≤ length (place i rp xs))
      × ((n : ℕ) → length xs ≤ n → suc i ≤ n → length (place i rp xs) ≤ n)
length-place zero rp [] = (omega arith, omega arith, λ n h k. k)
length-place (suc i) rp [] =
    let (a, b, c) = length-place i rp [] in
    (omega arith, omega arith, λ n h k. omega (arith, c (n - 1)))
length-place zero rp (x ∷ xs) = (omega arith, omega arith, λ n h k. h)
length-place (suc i) rp (x ∷ xs) =
    let (a, b, c) = length-place i rp xs in
    (omega arith, omega arith, λ n h k. omega (arith, c (n - 1)))

-- A packet in the slot of its number keeps the order.
pub InOrder-place :
    (f i : ℕ) (rp : RtpPack) (xs : List Slot)
    → f < 65536
    → rp.sequence_number ≡ add16 f i
    → InOrder f xs
    → InOrder f (place i rp xs)
InOrder-place f zero rp [] h e o = (omega arith, tt)
InOrder-place f (suc i) rp [] h e o =
    InOrder-place (add16 f 1) i rp [] (omega arith) (omega arith) tt
InOrder-place f zero rp (none ∷ xs) h e o = (omega arith, o)
InOrder-place f zero rp (some p ∷ xs) h e o = (omega arith, o.1)
InOrder-place f (suc i) rp (none ∷ xs) h e o =
    InOrder-place (add16 f 1) i rp xs (omega arith) (omega arith) o
InOrder-place f (suc i) rp (some p ∷ xs) h e o =
    (o.0, InOrder-place (add16 f 1) i rp xs (omega arith) (omega arith) o.1)

pub InOrder-tail : (f : ℕ) (x : Slot) (xs : List Slot) → InOrder f (x ∷ xs) → InOrder (add16 f 1) xs
InOrder-tail f none xs o = o
InOrder-tail f (some p) xs o = o.1

pub EndsWithPacket-tail : (x : Slot) (xs : List Slot) → EndsWithPacket (x ∷ xs) → EndsWithPacket xs
EndsWithPacket-tail x [] e = tt
EndsWithPacket-tail x (y ∷ xs) e = e

-- A last slot in front of a list that has one changes nothing.
EndsWithPacket-cons :
    (x : Slot) (xs : List Slot) → 0 < length xs → EndsWithPacket xs → EndsWithPacket (x ∷ xs)
EndsWithPacket-cons x [] h e = absurd (omega arith)
EndsWithPacket-cons x (y ∷ xs) h e = e

pub EndsWithPacket-place :
    (i : ℕ) (rp : RtpPack) (xs : List Slot) → EndsWithPacket xs → EndsWithPacket (place i rp xs)
EndsWithPacket-place zero rp [] e = tt
EndsWithPacket-place (suc i) rp [] e =
    EndsWithPacket-cons none (place i rp []) (omega (arith, (length-place i rp []).0))
      (EndsWithPacket-place i rp [] tt)
EndsWithPacket-place zero rp (x ∷ []) e = tt
EndsWithPacket-place zero rp (x ∷ y ∷ xs) e = e
EndsWithPacket-place (suc i) rp (x ∷ xs) e =
    EndsWithPacket-cons x (place i rp xs) (omega (arith, (length-place i rp xs).0))
      (EndsWithPacket-place i rp xs (EndsWithPacket-tail x xs e))

-- A window that ends with a packet has one behind its empty head.
pub head_nils-lt : (xs : List Slot) → 0 < length xs → EndsWithPacket xs → head_nils xs < length xs
head_nils-lt [] h e = absurd (omega arith)
head_nils-lt (some p ∷ xs) h e = omega arith
head_nils-lt (none ∷ []) h e = absurd e
head_nils-lt (none ∷ y ∷ xs) h e = omega (arith, head_nils-lt (y ∷ xs) (omega arith) e)

-- Replacing, or appending at the end, is placing.
pub set_or_append-place :
    (i : ℕ) (rp : RtpPack) (xs : List Slot)
    → i ≤ length xs
    → set_or_append xs i (some rp) ≡ place i rp xs
set_or_append-place zero rp [] h = refl
set_or_append-place (suc i) rp [] h = absurd (omega arith)
set_or_append-place zero rp (x ∷ xs) h = refl
set_or_append-place (suc i) rp (x ∷ xs) h =
    ap (λ t. x ∷ t) (set_or_append-place i rp xs (omega arith))

-- One empty slot at the end, and then placing, is placing.
pub place-set_or_append :
    (i : ℕ) (rp : RtpPack) (xs : List Slot)
    → length xs < i
    → place i rp (set_or_append xs (length xs) none) ≡ place i rp xs
place-set_or_append zero rp xs h = absurd (omega arith)
place-set_or_append (suc i) rp [] h = refl
place-set_or_append (suc i) rp (x ∷ xs) h =
    ap (λ t. x ∷ t) (place-set_or_append i rp xs (omega arith))

pub length-set_or_append_end :
    (xs : List Slot) (x : Slot) → length (set_or_append xs (length xs) x) ≡ suc (length xs)
length-set_or_append_end [] x = refl
length-set_or_append_end (y ∷ xs) x = ap suc (length-set_or_append_end xs x)

-- A packet that arrives, where the window starts at number `f`: it opens an empty window, it is
-- dropped if it is before the window, and else it goes into the slot of its number.
abbrev pub insert : ℕ → RtpPack → List Slot → ℕ × List Slot
insert f rp [] = (rp.sequence_number, some rp ∷ [])
insert f rp (x ∷ xs) =
    if first_before_second rp.sequence_number f
    then (f, x ∷ xs)
    else (f, place (sub16 rp.sequence_number f) rp (x ∷ xs))

-- The largest window: the first packet, and one 60000 places behind it.
abbrev pub max_window : ℕ
max_window = 60001

pub record IsWindow (f : ℕ) (xs : List Slot) : Type 0 where
  pub first : f < 65536
  pub in_order : InOrder f xs
  pub ends : EndsWithPacket xs
  pub bounded : length xs ≤ max_window

pub insert-IsWindow :
    (f : ℕ) (rp : RtpPack) (xs : List Slot)
    → rp.sequence_number < 65536
    → IsWindow f xs
    → IsWindow (insert f rp xs).0 (insert f rp xs).1
insert-IsWindow f rp [] h v = record {
  first = h;
  in_order = (refl, tt);
  ends = tt;
  bounded = omega arith;
}
insert-IsWindow f rp (x ∷ xs) h v = elim (Bool-cases (first_before_second rp.sequence_number f)) [
  | inl before ↦ rw before v
  | inr inside ↦
      let b = relative_bounds rp.sequence_number f h v.first inside in
      let e = relative-eq-sub16 rp.sequence_number f h v.first in
      rw inside (record {
        first = v.first;
        in_order =
            InOrder-place f (sub16 rp.sequence_number f) rp (x ∷ xs) v.first
              (omega (arith, v.first, h)) v.in_order;
        ends = EndsWithPacket-place (sub16 rp.sequence_number f) rp (x ∷ xs) v.ends;
        bounded =
            (length-place (sub16 rp.sequence_number f) rp (x ∷ xs)).2 max_window v.bounded
              (omega (arith, b, e));
      })
]

pub IsWindow-tail :
    (f : ℕ) (x : Slot) (xs : List Slot) → IsWindow f (x ∷ xs) → IsWindow (add16 f 1) xs
IsWindow-tail f x xs v = record {
  first = omega arith;
  in_order = InOrder-tail f x xs v.in_order;
  ends = EndsWithPacket-tail x xs v.ends;
  bounded = omega (arith, v.bounded);
}
