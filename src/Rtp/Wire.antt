-- ===== src/Rtp/Wire.antt =====
-- RTP packets as RFC 3550 lays them out, written independently of the parser of
-- parser/rtp/rtp.go.
use rtp_http_flv.Prelude.{
  ℕ, zero, suc, ◌+◌, ◌*◌, ◌/◌, ◌%◌, ◌^◌, ◌<◌, ◌≡◌, List, [], ◌∷◌, ◌++◌, Option, none, some, length,
  replicate,
}

-- A header extension: two bytes that the profile defines, and a body of whole words.
pub record Extension : Type 0 where
  pub profile_hi : ℕ
  pub profile_lo : ℕ
  pub words : ℕ
  pub body : List ℕ

-- The contents of a packet. `padding` counts the bytes of padding, 0 for none.
pub record Packet : Type 0 where
  pub version : ℕ
  pub marker : ℕ
  pub payload_type : ℕ
  pub sequence_number : ℕ
  pub timestamp : ℕ
  pub ssrc : ℕ
  pub csrc_cnt : ℕ
  pub csrcs : List ℕ
  pub extension : Option Extension
  pub payload : List ℕ
  pub padding : ℕ

abbrev pub extension_bytes : Option Extension → List ℕ
extension_bytes none = []
extension_bytes (some x) = x.profile_hi ∷ x.profile_lo ∷ (x.words / 256) ∷ (x.words % 256) ∷ x.body

abbrev pub has_extension : Option Extension → ℕ
has_extension none = 0
has_extension (some x) = 1

abbrev pub padding_bytes : ℕ → List ℕ
padding_bytes zero = []
padding_bytes (suc n) = replicate n 0 ++ (suc n ∷ [])

abbrev pub has_padding : ℕ → ℕ
has_padding zero = 0
has_padding (suc n) = 1

-- The packet behind its contributing sources.
abbrev pub tail_bytes : Packet → List ℕ
tail_bytes p = extension_bytes p.extension ++ (p.payload ++ padding_bytes p.padding)

abbrev pub encode : Packet → List ℕ
encode p =
    (p.version * 64 + has_padding p.padding * 32 + has_extension p.extension * 16 + p.csrc_cnt)
    ∷ (p.marker * 128 + p.payload_type)
    ∷ (p.sequence_number / 256)
    ∷ (p.sequence_number % 256)
    ∷ (p.timestamp / 16777216)
    ∷ (p.timestamp / 65536 % 256)
    ∷ (p.timestamp / 256 % 256)
    ∷ (p.timestamp % 256)
    ∷ (p.ssrc / 16777216)
    ∷ (p.ssrc / 65536 % 256)
    ∷ (p.ssrc / 256 % 256)
    ∷ (p.ssrc % 256)
    ∷ (p.csrcs ++ tail_bytes p)

abbrev pub IsExtension : Option Extension → Type 0
IsExtension none = Unit
IsExtension (some x) = (x.words < 65536) × (length x.body ≡ 4 * x.words)

-- Each field fits its bits, and the payload is not empty.
pub record IsPacket (p : Packet) : Type 0 where
  pub version : p.version < 4
  pub marker : p.marker < 2
  pub payload_type : p.payload_type < 128
  pub sequence_number : p.sequence_number < 65536
  pub timestamp : p.timestamp < 2 ^ 32
  pub ssrc : p.ssrc < 2 ^ 32
  pub csrc_cnt : p.csrc_cnt < 16
  pub csrcs : length p.csrcs ≡ 4 * p.csrc_cnt
  pub extension : IsExtension p.extension
  pub payload : 0 < length p.payload
  pub padding : p.padding < 256
