-- ===== src/Client/Reads.antt =====
-- The client reads back what the writer of protocol/httpflv/writer.go sends.
use rtp_http_flv.Prelude.{
  ℕ, zero, suc, ◌+◌, ◌*◌, ◌/◌, ◌%◌, ◌^◌, ◌<◌, ◌≡◌, refl, ap, sym, ◌∙◌, List, [], ◌∷◌, ◌++◌,
  append_assoc, none, some, length, take, drop, length-append, take-append_self, drop-append_self,
  done, Slice, exact, map, All, arith,
}
use rtp_http_flv.HttpFlv.Writer.{put_i32_be, flv_header}
use rtp_http_flv.HttpFlv.Writer.Stream.{frame, frames}
use rtp_http_flv.Client.{
  Body, TagHeader, header_len, then_read, read_content, read_tag, read_tags, http_flv,
}

-- A tag: its kind, its time, and its contents.
pub record Tag : Type 0 where
  pub kind : ℕ
  pub time : ℕ
  pub content : List ℕ

-- The layout of the FLV format: the size in three bytes, the time in three bytes with its highest
-- byte behind them, and the stream 0.
abbrev pub tag_bytes : Tag → List ℕ
tag_bytes t =
    t.kind
    ∷ (length t.content / 65536)
    ∷ (length t.content / 256 % 256)
    ∷ (length t.content % 256)
    ∷ (t.time / 65536 % 256)
    ∷ (t.time / 256 % 256)
    ∷ (t.time % 256)
    ∷ (t.time / 16777216)
    ∷ 0
    ∷ 0
    ∷ 0
    ∷ t.content

abbrev pub Fits : Tag → Type 0
Fits t = (length t.content < 2 ^ 24) × (t.time < 2 ^ 32)

abbrev pub slices : List Tag → List Slice
slices [] = []
slices (t ∷ ts) = exact (tag_bytes t) ∷ slices ts

abbrev pub as_read : Tag → TagHeader × List ℕ
as_read t =
    (record { tag_type = t.kind; data_size = length t.content; timestamp = t.time }, t.content)

-- What `TotalBytes` adds up to.
abbrev pub total_of : ℕ → List Tag → ℕ
total_of n [] = n
total_of n (t ∷ ts) = total_of (n + length t.content / 1024) ts

module _ (body : Body) where
  open body use {World, read_full, pending}

  -- A read of what stands in front.
  read-front :
      (n : ℕ) (w : World) (b rest : List ℕ)
      → pending w ≡ b ++ rest
      → length b ≡ n
      → ((read_full n w).0 ≡ some b) × (pending (read_full n w).1 ≡ rest)
  read-front n w b rest e h =
      let f = body.fills n w (omega (arith, h, ap length e, length-append b rest)) in
      (
        f.0
            ∙ ap some
                (ap (take n) e ∙ ap (λ m. take m (b ++ rest)) (sym h) ∙ take-append_self b rest),
        f.1 ∙ ap (drop n) e ∙ ap (λ m. drop m (b ++ rest)) (sym h) ∙ drop-append_self b rest,
      )

  read_content-front :
      (h : TagHeader) (w : World) (b previous rest : List ℕ)
      → pending w ≡ b ++ (previous ++ rest)
      → length b ≡ h.data_size
      → length previous ≡ 4
      → (w' : World) × (read_content body h w ≡ done (some (h, b), w')) × (pending w' ≡ rest)
  unfolding read_content
  read_content-front h w b previous rest e n m =
      let r = read-front h.data_size w b (previous ++ rest) e n in
      let q = read-front 4 _ previous rest r.1 m in (_, rw (then_read, r.0, q.0), q.1)

  read_tag-frame :
      (t : Tag) (rest : List ℕ) (w : World)
      → Fits t
      → pending w ≡ frame (exact (tag_bytes t)) ++ rest
      → (w' : World) × (read_tag body w ≡ done (some (as_read t), w')) × (pending w' ≡ rest)
  unfolding read_tag put_i32_be
  read_tag-frame t rest w f e =
      let n : ℕ = length t.content in
      let size_eq : n / 65536 * 65536 + n / 256 % 256 * 256 + n % 256 ≡ n = omega arith in
      let time_eq : t.time / 16777216 * 16777216
            + t.time / 65536 % 256 * 65536
            + t.time / 256 % 256 * 256
            + t.time % 256
          ≡ t.time =
        omega arith in
      let previous : List ℕ = put_i32_be (length (tag_bytes t) % 2 ^ 32) in
      let r1 = read-front 1 w (take 1 (tag_bytes t)) _ e refl in
      let r2 = read-front 3 _ (take 3 (drop 1 (tag_bytes t))) _ r1.1 refl in
      let r3 = read-front 4 _ (take 4 (drop 4 (tag_bytes t))) _ r2.1 refl in
      let r4 = read-front 3 _ (0 ∷ 0 ∷ 0 ∷ []) _ r3.1 refl in
      let (w', r5, e5) =
        read_content-front (as_read t).0 _ t.content previous rest
          (r4.1 ∙ append_assoc t.content previous rest) refl refl in
      (w', rw (then_read, r1.0, r2.0, r3.0, r4.0, size_eq, time_eq) r5, e5)

  read_tag-end : (w : World) → pending w ≡ [] → read_tag body w ≡ done (none, (read_full 1 w).1)
  unfolding read_tag
  read_tag-end w e = rw (then_read, body.fails 1 w (omega (arith, ap length e))) refl

  read_tags-frames :
      (ts : List Tag) (fuel total : ℕ) (w : World)
      → All Fits ts
      → pending w ≡ frames (slices ts)
      → length ts < fuel
      → read_tags body fuel total w ≡ done (map as_read ts, total_of total ts)
  unfolding read_tags
  read_tags-frames ts zero total w f e h = absurd (omega arith)
  read_tags-frames [] (suc fuel) total w f e h = rw (read_tag-end w e) refl
  read_tags-frames (t ∷ ts) (suc fuel) total w f e h =
      let (w', r, e') = read_tag-frame t (frames (slices ts)) w f.0 e in
      rw (r, read_tags-frames ts fuel (total + length t.content / 1024) w' f.1 e' (omega arith))
        refl

  -- The client reads back what a writer sends: from the header of the file and the tags behind it,
  -- each followed by its size, it reads the kind, the size, the time stamp and the contents of every
  -- tag, in their order, and stops when the connection ends. That holds of tags whose sizes fit three
  -- bytes and whose time stamps fit four, with more rounds than there are tags.
  pub http_flv-frames :
      (ts : List Tag) (fuel : ℕ) (w : World)
      → All Fits ts
      → pending w ≡ flv_header ++ (put_i32_be 0 ++ frames (slices ts))
      → length ts < fuel
      → http_flv body fuel w ≡ done (some (map as_read ts, total_of 0 ts))
  unfolding http_flv put_i32_be
  http_flv-frames ts fuel w f e h =
      let r = read-front header_len w (flv_header ++ put_i32_be 0) (frames (slices ts)) e refl in
      rw (http_flv, r.0, read_tags-frames ts fuel 0 (read_full header_len w).1 f r.1 h) refl
