-- ===== src/Prelude/Go.antt =====
-- The outcome of running a piece of Go code, and the slices it works on.
use Prim.Native.Nat.{ℕ, zero, suc, ◌≤◌, ◌+◌, ◌-◌, ◌*◌}
use mathlib.Core.Path.{◌≡◌, refl}
use mathlib.Core.Bool.{Bool, true, false, ◌&&◌}
use mathlib.Core.Option.{Option, none, some}
use mathlib.Core.List.{List, ◌∷◌, [], ◌++◌}
use native.Mathlib.Omega.{arith}
use rtp_http_flv.Prelude.Tests.{leb, if◌then◌else◌}
use rtp_http_flv.Prelude.Lists.{length, get_elem?, take, drop}

-- `panics`: the goroutine panics. `blocks`: it waits at a channel operation that cannot proceed.
-- `out_of_fuel`: a loop has not ended within the rounds that it was given.
pub data Run {ℓ} (A : Type ℓ) : Type ℓ where
  done : A → Run A
  panics blocks out_of_fuel : Run A

infixl 5 ◌>>=◌ ◌>>◌
abbrev pub ◌>>=◌ {ℓ κ} : {A : Type ℓ} {B : Type κ} → Run A → (A → Run B) → Run B
done a >>= f = f a
panics >>= f = panics
blocks >>= f = blocks
out_of_fuel >>= f = out_of_fuel

abbrev pub ◌>>◌ {ℓ κ} : {A : Type ℓ} {B : Type κ} → Run A → Run B → Run B
m >> k = m >>= λ _. k

-- A check whose failure is a panic.
abbrev pub check : Bool → Run (Unit {0})
check true = done tt
check false = panics

-- A pointer that is dereferenced.
abbrev pub deref {ℓ} : {A : Type ℓ} → Option A → Run A
deref none = panics
deref (some a) = done a

-- A byte slice: its elements, and the bytes of the array behind them, up to its capacity, which a
-- reslice can reach.
pub record Slice : Type 0 where
  pub elems : List ℕ
  pub spare : List ℕ

-- A slice with nothing behind it, as `make` returns it.
abbrev pub exact : List ℕ → Slice
exact b = record { elems = b; spare = [] }

-- b[i]
abbrev pub index : List ℕ → ℕ → Run ℕ
index b i = deref (get_elem? b i)

-- b[lo:] on the elements
abbrev pub slice_from : List ℕ → ℕ → Run (List ℕ)
slice_from b zero = done b
slice_from [] (suc lo) = panics
slice_from (x ∷ b) (suc lo) = slice_from b lo

pub slice_from-done : (b : List ℕ) (lo : ℕ) → lo ≤ length b → slice_from b lo ≡ done (drop lo b)
slice_from-done b zero h = refl
slice_from-done [] (suc lo) h = absurd (omega arith)
slice_from-done (x ∷ b) (suc lo) h = slice_from-done b lo (omega arith)

-- b[lo:hi]: `hi` may go up to the capacity.
abbrev pub reslice : Slice → ℕ → ℕ → Run Slice
reslice s lo hi =
    let all = s.elems ++ s.spare in
    if leb lo hi && leb hi (length all)
    then done (record { elems = take (hi - lo) (drop lo all); spare = drop hi all })
    else panics

-- binary.BigEndian.Uint16, which panics on fewer than two bytes
abbrev pub uint16 : List ℕ → Run ℕ
uint16 b = do lo ← index b 1; hi ← index b 0; done (hi * 256 + lo)

-- binary.BigEndian.Uint32
abbrev pub uint32 : List ℕ → Run ℕ
uint32 b = do
  b3 ← index b 3
  b0 ← index b 0
  b1 ← index b 1
  b2 ← index b 2
  done (b0 * 16777216 + b1 * 65536 + b2 * 256 + b3)

pub done-inj {ℓ} : {A : Type ℓ} (a b : A) → done a ≡ done b → a ≡ b
done-inj a b e = cc

-- Inversion of a bind that is done.
pub >>=-eq-done {ℓ κ} :
    {A : Type ℓ} {B : Type κ} (m : Run A) (f : A → Run B) {b : B}
    → (m >>= f) ≡ done b
    → (a : A) × (m ≡ done a) × (f a ≡ done b)
>>=-eq-done (done a) f h = (a, refl, h)
>>=-eq-done panics f h = ground arith
>>=-eq-done blocks f h = ground arith
>>=-eq-done out_of_fuel f h = ground arith

-- b[lo:], with what lies behind it
abbrev pub tail_from : Slice → ℕ → Run Slice
tail_from s lo = slice_from s.elems lo >>= λ b. done (record { elems = b; spare = s.spare })

-- `defer` with a `recover`: a panic becomes the value that the handler returns.
abbrev pub recover_with {ℓ} : {A : Type ℓ} → A → Run A → Run A
recover_with d (done a) = done a
recover_with d panics = done d
recover_with d blocks = blocks
recover_with d out_of_fuel = out_of_fuel

-- Two continuations that agree on what a step may return.
pub >>=-ext {ℓ κ} :
    {A : Type ℓ} {B : Type κ} (m : Run A) (f g : A → Run B)
    → ((a : A) → m ≡ done a → f a ≡ g a)
    → (m >>= f) ≡ (m >>= g)
>>=-ext (done a) f g h = h a refl
>>=-ext panics f g h = refl
>>=-ext blocks f g h = refl
>>=-ext out_of_fuel f g h = refl
