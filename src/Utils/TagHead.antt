-- ===== src/Utils/TagHead.antt =====
-- `IsTagHead` of utils/util.go: does a payload hold one whole audio or video tag, but for the four
-- bytes of the previous tag's size? `tag_size` is the number that three bytes of it spell, which
-- `extractFlv` of cache/RtpQueue.go computes in the same way.
use rtp_http_flv.Prelude.{
  ℕ, ◌+◌, ◌*◌, ◌≡◌, refl, ◌↔◌, ◌⊎◌, ◌&&◌, ◌||◌, Bool, true, false, List, ◌∷◌, arith, ltb, ◌==◌,
  if◌then◌else◌, length, Run, done, ◌>>=◌, index,
}

-- `b1<<16 | b2<<8 | b3 + 11`: in Go `+` and `|` bind alike, from the left, and the shifted bytes
-- have no bit in common, so that `|` is `+`.
abbrev pub tag_size : ℕ → ℕ → ℕ → ℕ
tag_size b1 b2 b3 = b1 * 65536 + b2 * 256 + b3 + 11

-- The three tests on the bytes 8 to 10, and the comparison of the sizes.
unfoldable pub is_tag_head : List ℕ → Run Bool
is_tag_head payload = if ltb (length payload) 11 then done false else do
  kind ← index payload 0
  s8 ← index payload 8
  s9 ← index payload 9
  s10 ← index payload 10
  b1 ← index payload 1
  b2 ← index payload 2
  b3 ← index payload 3
  done (
      (kind == 8 || kind == 9)
      && (s8 == 0 && s9 == 0 && s10 == 0)
      && tag_size b1 b2 b3 == length payload)

-- An audio or video tag as the FLV format lays it out: the kind, the size of the body in three
-- bytes, four bytes of time stamp, the stream 0, and the body.
pub record IsTag (p : List ℕ) : Type 0 where
  pub kind : ℕ
  pub kind_known : (kind ≡ 8) ⊎ (kind ≡ 9)
  pub size : ℕ × ℕ × ℕ
  pub time : ℕ × ℕ × ℕ × ℕ
  pub body : List ℕ
  pub layout :
      p ≡ kind ∷ size.0 ∷ size.1 ∷ size.2 ∷ time.0 ∷ time.1 ∷ time.2 ∷ time.3 ∷ 0 ∷ 0 ∷ 0 ∷ body
  pub sized : size.0 * 65536 + size.1 * 256 + size.2 ≡ length body

-- The verdict on a payload of at least eleven bytes, field by field.
is_tag_head-cons :
    (k b1 b2 b3 t0 t1 t2 t3 s8 s9 s10 : ℕ) (body : List ℕ)
    → is_tag_head (k ∷ b1 ∷ b2 ∷ b3 ∷ t0 ∷ t1 ∷ t2 ∷ t3 ∷ s8 ∷ s9 ∷ s10 ∷ body)
      ≡ done (
          (k == 8 || k == 9)
          && (s8 == 0 && s9 == 0 && s10 == 0)
          && tag_size b1 b2 b3 == length body + 11)
unfolding is_tag_head
is_tag_head-cons k b1 b2 b3 t0 t1 t2 t3 s8 s9 s10 body = ground arith

-- `IsTagHead` does not panic, whatever the payload.
pub is_tag_head_total : (p : List ℕ) → (b : Bool) × (is_tag_head p ≡ done b)
unfolding is_tag_head
is_tag_head_total (k ∷ b1 ∷ b2 ∷ b3 ∷ t0 ∷ t1 ∷ t2 ∷ t3 ∷ s8 ∷ s9 ∷ s10 ∷ body) =
    (_, is_tag_head-cons k b1 b2 b3 t0 t1 t2 t3 s8 s9 s10 body)
is_tag_head_total _ = (false, refl)

is_tag_head-IsTag : (p : List ℕ) → is_tag_head p ≡ done true → IsTag p
unfolding is_tag_head
is_tag_head-IsTag (k ∷ b1 ∷ b2 ∷ b3 ∷ t0 ∷ t1 ∷ t2 ∷ t3 ∷ s8 ∷ s9 ∷ s10 ∷ body) h = record {
  kind = k;
  kind_known = ground (arith, is_tag_head-cons k b1 b2 b3 t0 t1 t2 t3 s8 s9 s10 body);
  size = (b1, b2, b3);
  time = (t0, t1, t2, t3);
  body = body;
  layout = ground (arith, is_tag_head-cons k b1 b2 b3 t0 t1 t2 t3 s8 s9 s10 body);
  sized = ground (arith, is_tag_head-cons k b1 b2 b3 t0 t1 t2 t3 s8 s9 s10 body);
}
is_tag_head-IsTag _ h = ground arith

IsTag-is_tag_head : (p : List ℕ) → IsTag p → is_tag_head p ≡ done true
IsTag-is_tag_head p t = ground (
  arith,
  t.kind_known,
  t.layout,
  t.sized,
  is_tag_head-cons t.kind t.size.0 t.size.1 t.size.2 t.time.0 t.time.1 t.time.2 t.time.3 0 0 0
      t.body,
)

-- `IsTagHead` accepts a payload exactly if it is one whole audio or video tag.
pub is_tag_head_iff : (p : List ℕ) → (is_tag_head p ≡ done true) ↔ IsTag p
is_tag_head_iff p = (is_tag_head-IsTag p, IsTag-is_tag_head p)
