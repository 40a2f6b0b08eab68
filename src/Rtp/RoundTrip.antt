-- ===== src/Rtp/RoundTrip.antt =====
-- What the parser of parser/rtp/rtp.go reads back from a packet of RFC 3550.
use rtp_http_flv.Prelude.{
  ℕ, zero, suc, ◌+◌, ◌-◌, ◌*◌, ◌/◌, ◌%◌, ◌^◌, ◌≤◌, ◌<◌, ◌≡◌, refl, ◌∙◌, sym, false, List, [], ◌∷◌,
  ◌++◌, Option, none, some, arith, ltb, ◌==◌, length, take, replicate, append-nil,
  get_elem?-replicate_append, get_elem?, done, Slice, length-append, length-replicate,
  drop-append_add, get_elem?-append_add, append_assoc, take-append_self, drop-append_self, reslice,
  slice_from-done,
}
use rtp_http_flv.Rtp.{RtpPack}
use rtp_http_flv.Rtp.Parse.{skip_csrc, skip_extension, strip_padding, parse_header, parse}
use rtp_http_flv.Rtp.Wire.{
  Extension, Packet, extension_bytes, has_extension, padding_bytes, has_padding, tail_bytes, encode,
  IsExtension, IsPacket,
}

skip_extension-encode :
    (pre : List ℕ) (x : Option Extension) (rest : List ℕ)
    → IsExtension x
    → skip_extension (pre ++ (extension_bytes x ++ rest)) (has_extension x == 1) (length pre)
      ≡ done (length pre + length (extension_bytes x))
unfolding skip_extension
skip_extension-encode pre none rest h = ground arith
skip_extension-encode pre (some x) rest h = ground (
  arith,
  length-append pre (extension_bytes (some x) ++ rest),
  length-append x.body rest,
  drop-append_add pre (extension_bytes (some x) ++ rest) 2,
  slice_from-done (pre ++ (extension_bytes (some x) ++ rest)) (length pre + 2),
)

strip_padding-encode :
    (pre : List ℕ) (payload : List ℕ) (n : ℕ)
    → strip_padding (pre ++ (payload ++ padding_bytes n)) (has_padding n == 1) (length pre)
      ≡ done (length pre + length payload)
unfolding strip_padding
strip_padding-encode pre payload zero =
    ground (arith, append-nil payload, length-append pre payload)
strip_padding-encode pre payload (suc n) =
    let pad = replicate n 0 ++ (suc n ∷ []) in
    let size : length (pre ++ (payload ++ pad)) ≡ length pre + length payload + suc n = omega (
      arith,
      length-append pre (payload ++ pad),
      length-append payload pad,
      length-append (replicate n 0) (suc n ∷ []),
      length-replicate {A = ℕ} n 0,
    ) in
    let last : get_elem? (pre ++ (payload ++ pad)) (length pre + (length payload + n))
        ≡ some (suc n) =
      get_elem?-append_add pre (payload ++ pad) (length payload + n)
      ∙ get_elem?-append_add payload pad n
      ∙ get_elem?-replicate_append n 0 (suc n) [] in
    let at : length pre + length payload + suc n - 1 ≡ length pre + (length payload + n) =
      omega arith in
    rw (size, at, last) (ground arith)

-- The slice of a packet's payload.
reslice-encode :
    (pre payload rest spare : List ℕ)
    → reslice
        (record { elems = pre ++ (payload ++ rest); spare = spare })
        (length pre)
        (length pre + length payload)
      ≡ done (record { elems = payload; spare = rest ++ spare })
reslice-encode pre payload rest spare =
    rw (append_assoc pre (payload ++ rest) spare, append_assoc payload rest spare)
      (ground (
        arith,
        length-append pre (payload ++ (rest ++ spare)),
        length-append payload (rest ++ spare),
        drop-append_self pre (payload ++ (rest ++ spare)),
        drop-append_add pre (payload ++ (rest ++ spare)) (length payload),
        drop-append_self payload (rest ++ spare),
        take-append_self payload (rest ++ spare),
      ))

has_padding_le : (n : ℕ) → has_padding n ≤ 1
has_padding_le zero = omega arith
has_padding_le (suc n) = omega arith

has_extension_le : (x : Option Extension) → has_extension x ≤ 1
has_extension_le none = omega arith
has_extension_le (some x) = omega arith

-- The packet as it stands when the fixed header has been read.
abbrev pub header : Packet → RtpPack
header p = record {
  version = p.version;
  padding = has_padding p.padding == 1;
  extension = has_extension p.extension == 1;
  csrc_cnt = p.csrc_cnt;
  marker = p.marker;
  payload_type = p.payload_type;
  sequence_number = p.sequence_number;
  timestamp = p.timestamp;
  ssrc = p.ssrc;
  payload = record { elems = []; spare = [] };
  payload_offset = 0;
}

-- The first byte holds four fields, which are read back.
first_byte_fields :
    (v pad x n : ℕ)
    → v < 4
    → pad ≤ 1
    → x ≤ 1
    → n < 16
    → let b = v * 64 + pad * 32 + x * 16 + n in
      (b / 64 ≡ v) × (b / 32 % 2 ≡ pad) × (b / 16 % 2 ≡ x) × (b % 16 ≡ n)
first_byte_fields v pad x n hv hp hx hn = omega arith

word_bytes :
    (n : ℕ)
    → n < 2 ^ 32
    → n / 16777216 * 16777216 + n / 65536 % 256 * 65536 + n / 256 % 256 * 256 + n % 256 ≡ n
word_bytes n h = omega arith

parse_header-encode : (p : Packet) → IsPacket p → parse_header (encode p) ≡ done (header p)
unfolding parse_header
parse_header-encode p v =
    let (a, b, c, d) =
      first_byte_fields p.version (has_padding p.padding) (has_extension p.extension) p.csrc_cnt
        v.version (has_padding_le p.padding) (has_extension_le p.extension) v.csrc_cnt in
    let m : (p.marker * 128 + p.payload_type) / 128 ≡ p.marker = omega arith in
    let t : (p.marker * 128 + p.payload_type) % 128 ≡ p.payload_type = omega arith in
    let s : p.sequence_number / 256 * 256 + p.sequence_number % 256 ≡ p.sequence_number =
      omega arith in
    rw (a, b, c, d, m, t, s, word_bytes p.timestamp v.timestamp, word_bytes p.ssrc v.ssrc)

-- The parser's steps, put together.
parse_steps :
    (s : Slice) (h : RtpPack) (o stop : ℕ) (payload : Slice)
    → 12 ≤ length s.elems
    → parse_header s.elems ≡ done h
    → skip_extension s.elems h.extension (skip_csrc 12 (length s.elems) h.csrc_cnt) ≡ done o
    → strip_padding s.elems h.padding o ≡ done stop
    → reslice s o stop ≡ done payload
    → o < stop
    → parse s ≡ done (some (record h { payload = payload; payload_offset = o }))
unfolding parse
parse_steps s h o stop payload long e f g k lt =
    let t : ltb (length s.elems) 12 ≡ false = ground arith in
    let u : ltb (stop - o) 1 ≡ false = ground arith in rw (t, e, f, g, k, u)

-- The two steps at an offset that is the length of what stands before it.
strip_padding_at :
    (b pre payload : List ℕ) (n o : ℕ)
    → b ≡ pre ++ (payload ++ padding_bytes n)
    → o ≡ length pre
    → strip_padding b (has_padding n == 1) o ≡ done (o + length payload)
strip_padding_at b pre payload n o e f = rw (e, f) (strip_padding-encode pre payload n)

reslice_at :
    (b pre payload rest spare : List ℕ) (o : ℕ)
    → b ≡ pre ++ (payload ++ rest)
    → o ≡ length pre
    → reslice (record { elems = b; spare = spare }) o (o + length payload)
      ≡ done (record { elems = payload; spare = rest ++ spare })
reslice_at b pre payload rest spare o e f = rw (e, f) (reslice-encode pre payload rest spare)

skip_csrc-encode :
    (size cnt : ℕ) (csrcs : List ℕ)
    → length csrcs ≡ 4 * cnt
    → 12 + length csrcs ≤ size
    → skip_csrc 12 size cnt ≡ 12 + length csrcs
unfolding skip_csrc
skip_csrc-encode size cnt csrcs h k = ground arith

skip_at :
    (b pre rest : List ℕ) (x : Option Extension) (o : ℕ)
    → b ≡ pre ++ (extension_bytes x ++ rest)
    → o ≡ length pre
    → IsExtension x
    → skip_extension b (has_extension x == 1) o ≡ done (o + length (extension_bytes x))
skip_at b pre rest x o e f h = rw (e, f) (skip_extension-encode pre x rest h)

-- The parser reads back every field of a packet that RFC 3550 allows, and exactly its payload:
-- it skips the contributing sources and the extension, and cuts the padding off.
pub parse-encode :
    (p : Packet) (spare : List ℕ)
    → IsPacket p
    → parse (record { elems = encode p; spare = spare })
      ≡ done (
          some (record (header p) {
            payload = record { elems = p.payload; spare = padding_bytes p.padding ++ spare };
            payload_offset = 12 + length p.csrcs + length (extension_bytes p.extension);
          }))
parse-encode p spare v =
    let pre : List ℕ = take 12 (encode p) ++ p.csrcs in
    let ext : List ℕ = extension_bytes p.extension in
    let rest : List ℕ = p.payload ++ padding_bytes p.padding in
    let split : encode p ≡ (pre ++ ext) ++ rest = sym (append_assoc pre ext rest) in
    let at : 12 + length p.csrcs + length ext ≡ length (pre ++ ext) =
      omega (arith, length-append pre ext) in
    let csrc =
      skip_csrc-encode (length (encode p)) p.csrc_cnt p.csrcs v.csrcs
        (omega (arith, length-append p.csrcs (tail_bytes p))) in
    parse_steps (record { elems = encode p; spare = spare }) (header p)
      (12 + length p.csrcs + length ext) (12 + length p.csrcs + length ext + length p.payload)
      (record { elems = p.payload; spare = padding_bytes p.padding ++ spare }) (omega arith)
      (parse_header-encode p v)
      (rw csrc (skip_at _ pre rest p.extension _ refl (omega arith) v.extension))
      (strip_padding_at _ (pre ++ ext) p.payload p.padding _ split at)
      (reslice_at _ (pre ++ ext) p.payload (padding_bytes p.padding) spare _ split at)
      (omega (arith, v.payload))
