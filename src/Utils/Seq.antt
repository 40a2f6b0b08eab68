-- ===== src/Utils/Seq.antt =====
-- The 16-bit sequence numbers of RTP packets: `FirstBeforeSecond` of utils/util.go, and the offset
-- of a packet in the queue, as `Enqueue` of cache/RtpQueue.go computes it.
use rtp_http_flv.Prelude.{
  ℕ, ◌+◌, ◌-◌, ◌%◌, ◌≤◌, ◌<◌, ◌≡◌, Bool, true, false, arith, ltb, if◌then◌else◌,
}

-- uint16 arithmetic
abbrev pub add16 : ℕ → ℕ → ℕ
add16 a b = (a + b) % 65536

abbrev pub sub16 : ℕ → ℕ → ℕ
sub16 a b = (a + 65536 - b) % 65536

unfoldable pub first_before_second : ℕ → ℕ → Bool
first_before_second seq1 seq2 =
    if ltb seq1 seq2 then ltb (sub16 seq2 seq1) 60000 else ltb 60000 (sub16 seq1 seq2)

-- `relative` of `Enqueue`: the slot of `seq` behind the first packet of the queue.
unfoldable pub relative : ℕ → ℕ → ℕ
relative seq first =
    if ltb first seq then sub16 seq first else add16 (add16 (sub16 65535 first) seq) 1

-- Of two numbers at most one is before the other.
first_before_second_asymm :
    (a b : ℕ)
    → a < 65536
    → b < 65536
    → first_before_second a b ≡ true
    → first_before_second b a ≡ false
unfolding first_before_second
first_before_second_asymm a b ha hb h = ground arith

-- Two sequence numbers less than 5536 steps apart are put in the order in which they were sent,
-- also where the counter has wrapped between them: `a` is before `a + d`, and not the other way
-- round.
pub first_before_second_window :
    (a d : ℕ)
    → a < 65536
    → 0 < d
    → d < 5536
    → (first_before_second a (add16 a d) ≡ true) × (first_before_second (add16 a d) a ≡ false)
unfolding first_before_second
first_before_second_window a d ha hd hb = ground arith

-- A packet that is not before the first one of the queue has the slot to which its number counts
-- from the first one, modulo 2^16; no slot is more than 60000 places behind the first.
pub relative_bounds :
    (seq first : ℕ)
    → seq < 65536
    → first < 65536
    → first_before_second seq first ≡ false
    → (add16 first (relative seq first) ≡ seq) × (relative seq first ≤ 60000)
unfolding first_before_second relative
relative_bounds seq first hs hf h = ground arith

-- The offset without the wrap-around of its parts.
pub relative-eq-sub16 :
    (seq first : ℕ) → seq < 65536 → first < 65536 → relative seq first ≡ sub16 seq first
unfolding relative
relative-eq-sub16 seq first hs hf = ground arith
