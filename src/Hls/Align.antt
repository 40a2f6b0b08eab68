-- ===== src/Hls/Align.antt =====
-- `align` of protocol/hls/align.go: the time stamps of audio frames are put on a regular grid.
use rtp_http_flv.Prelude.{
  ℕ, zero, suc, ◌+◌, ◌-◌, ◌*◌, ◌%◌, ◌^◌, ◌≤◌, ◌<◌, ◌≡◌, refl, ap, List, [], ◌∷◌, leb, if◌then◌else◌,
  arith, length,
}

-- `syncms` and `h264_default_hz`
abbrev pub tolerance : ℕ
tolerance = 2 * 90

pub record Align : Type 0 where
  pub frame_num : ℕ
  pub frame_base : ℕ

-- The time that the grid expects, on 64 bits.
abbrev pub expected : Align → ℕ → ℕ
expected a inc = (a.frame_base + a.frame_num * inc) % 2 ^ 64

abbrev pub distance : ℕ → ℕ → ℕ
distance est dts = if leb dts est then est - dts else dts - est

-- `align`: the new state, and the new time stamp.
unfoldable pub align : Align → ℕ → ℕ → Align × ℕ
align a dts inc =
    if leb (distance (expected a inc) dts) tolerance
    then (record a { frame_num = (a.frame_num + 1) % 2 ^ 64 }, expected a inc)
    else (record { frame_num = 1; frame_base = dts }, dts)

-- No time stamp is moved by more than two milliseconds, which are 180 ticks.
pub align_near :
    (a : Align) (dts inc : ℕ)
    → ((align a dts inc).1 ≤ dts + tolerance) × (dts ≤ (align a dts inc).1 + tolerance)
unfolding align
align_near a dts inc = ground arith

-- The frames of a run of audio, one after the other.
unfoldable pub align_all : Align → ℕ → List ℕ → List ℕ
align_all a inc [] = []
align_all a inc (dts ∷ rest) = let (a', t) = align a dts inc in t ∷ align_all a' inc rest

-- The times of a grid, from its `n`-th on.
abbrev pub grid : ℕ → ℕ → ℕ → ℕ → List ℕ
grid base inc n zero = []
grid base inc n (suc k) = (base + n * inc) ∷ grid base inc (n + 1) k

-- Each time stamp is at most 180 ticks away from the grid.
abbrev pub IsJitter : ℕ → ℕ → ℕ → List ℕ → Type 0
IsJitter base inc n [] = Unit
IsJitter base inc n (dts ∷ rest) =
    (dts ≤ base + n * inc + tolerance)
    × (base + n * inc ≤ dts + tolerance)
    × IsJitter base inc (n + 1) rest

align-grid :
    (base inc n dts : ℕ)
    → base + n * inc < 2 ^ 64
    → n + 1 < 2 ^ 64
    → dts ≤ base + n * inc + tolerance
    → base + n * inc ≤ dts + tolerance
    → align (record { frame_num = n; frame_base = base }) dts inc
      ≡ (record { frame_num = n + 1; frame_base = base }, base + n * inc)
unfolding align
align-grid base inc n dts h m k l = ground arith

-- Time stamps that jitter round a grid by at most two milliseconds come out exactly on the grid, as
-- long as no time passes 2^64.
pub align_steady :
    (base inc n : ℕ) (times : List ℕ)
    → IsJitter base inc n times
    → base + (n + length times) * inc < 2 ^ 64
    → n + length times < 2 ^ 64
    → align_all (record { frame_num = n; frame_base = base }) inc times
      ≡ grid base inc n (length times)
unfolding align_all
align_steady base inc n [] j h m = refl
align_steady base inc n (dts ∷ rest) j h m =
    rw (align-grid base inc n dts (omega arith) (omega arith) j.0 j.1) (
      ap (λ t. (base + n * inc) ∷ t)
        (align_steady base inc (n + 1) rest j.2 (omega arith) (omega arith)))
