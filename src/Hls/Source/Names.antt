-- ===== src/Hls/Source/Names.antt =====
-- The names of segments, `fmt.Sprintf("/%s/%d.ts", key, unix)`.
use rtp_http_flv.Prelude.{
  ℕ, zero, suc, ◌+◌, ◌-◌, ◌*◌, ◌/◌, ◌%◌, ◌≤◌, ◌<◌, ◌≡◌, refl, [], ◌∷◌, ◌++◌, ltb, if◌then◌else◌,
  Text, codes, arith, All, Bool-cases, inl, inr,
}

-- The decimal digits of a number, by fuel: one digit for each.
unfoldable pub digits_within : ℕ → ℕ → Text
digits_within zero n = []
digits_within (suc fuel) n =
    let rest = digits_within fuel (n / 10) in
    if ltb n 10 then (48 + n) ∷ [] else rest ++ (48 + n % 10) ∷ []

-- `%d` of a number that is not negative.
unfoldable pub digits : ℕ → Text
digits n = digits_within (suc n) n

abbrev pub ts_suffix : Text
ts_suffix = codes ".ts"

unfoldable pub segment_name : Text → ℕ → Text
segment_name key now = b'/' ∷ (key ++ b'/' ∷ (digits now ++ ts_suffix))

-- Only the characters from 0 to 9.
abbrev pub AreDigits : Text → Type 0
AreDigits s = All (λ c. (48 ≤ c) × (c < 58)) s

AreDigits-append : (s t : Text) → AreDigits s → AreDigits t → AreDigits (s ++ t)
AreDigits-append [] t a b = b
AreDigits-append (c ∷ s) t a b = (a.0, AreDigits-append s t a.1 b)

AreDigits-digits_within : (fuel n : ℕ) → AreDigits (digits_within fuel n)
unfolding digits_within
AreDigits-digits_within zero n = tt
AreDigits-digits_within (suc fuel) n = elim (Bool-cases (ltb n 10)) [
  | inl small ↦ rw small ((omega arith, ground (arith, small)), tt)
  | inr large ↦ rw large (
      AreDigits-append (digits_within fuel (n / 10)) ((48 + n % 10) ∷ [])
        (AreDigits-digits_within fuel (n / 10)) ((omega arith, omega arith), tt))
]

pub digits-AreDigits : (n : ℕ) → AreDigits (digits n)
unfolding digits
digits-AreDigits n = AreDigits-digits_within (suc n) n

-- The number that digits stand for.
abbrev pub value_from : ℕ → Text → ℕ
value_from m [] = m
value_from m (c ∷ s) = value_from (m * 10 + (c - 48)) s

value_from-append :
    (m : ℕ) (s : Text) (c : ℕ) → value_from m (s ++ c ∷ []) ≡ value_from m s * 10 + (c - 48)
value_from-append m [] c = refl
value_from-append m (x ∷ s) c = value_from-append (m * 10 + (x - 48)) s c

value-digits_within : (fuel n : ℕ) → n < fuel → value_from 0 (digits_within fuel n) ≡ n
unfolding digits_within
value-digits_within zero n h = absurd (omega arith)
value-digits_within (suc fuel) n h = elim (Bool-cases (ltb n 10)) [
  | inl small ↦ rw small (omega arith)
  | inr large ↦
      let big : 10 ≤ n = ground (arith, large) in
      rw
        (
          large,
          value_from-append 0 (digits_within fuel (n / 10)) (48 + n % 10),
          value-digits_within fuel (n / 10) (omega arith),
        )
        (omega arith)
]

-- The fuel is enough: the digits stand for the number.
pub value-digits : (n : ℕ) → value_from 0 (digits n) ≡ n
unfolding digits
value-digits n = value-digits_within (suc n) n (omega arith)
