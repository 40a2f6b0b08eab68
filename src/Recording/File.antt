-- ===== src/Recording/File.antt =====
-- The rest of `File` of utils/flv.go: its fields, and the methods that move in the file.
use rtp_http_flv.Prelude.{
  ℕ, ◌+◌, ◌≡◌, refl, sym, ap, ◌∙◌, Bool, true, false, not, Bool-cases, Option-cases, inl, inr, List,
  ◌++◌, append_assoc, Option, none, some, if◌then◌else◌, length, take, drop, replicate, leb, Text,
  arith, Slice,
}
use rtp_http_flv.HttpFlv.Writer.Stream.{frames}
use rtp_http_flv.Recording.{header_bytes}

-- The second argument of `Seek`: 0, 1 and 2.
pub data Whence : Type 0 where
  from_start from_here from_end : Whence

-- `b` written over `c` at the place `p`.
abbrev pub overwrite : ℕ → List ℕ → List ℕ → List ℕ
overwrite p b c = take p c ++ (b ++ drop (p + length b) c)

abbrev pub place : ℕ → Whence → ℕ → ℕ → ℕ
place offset from_start position size = offset
place offset from_here position size = position + offset
place offset from_end position size = size + offset

-- An `os.File` with its position: `write` and `sync` return whether they succeeded, `seek` the new
-- position, if it did.
pub record SeekFile : Type 1 where
  pub World : Type 0
  pub write : List ℕ → World → Bool × World
  pub sync : World → Bool × World
  pub seek : ℕ → Whence → World → Option ℕ × World
  pub close : World → World
  pub contents : World → List ℕ
  pub position : World → ℕ
  pub contents-write :
      (b : List ℕ) (w : World)
      → (write b w).0 ≡ true
      → contents (write b w).1 ≡ overwrite (position w) b (contents w)
  pub seek_place :
      (offset n : ℕ) (wh : Whence) (w : World)
      → (seek offset wh w).0 ≡ some n
      → (n ≡ place offset wh (position w) (length (contents w)))
        × (position (seek offset wh w).1 ≡ n)
        × (contents (seek offset wh w).1 ≡ contents w)
  pub sync_still :
      (w : World) → (contents (sync w).1 ≡ contents w) × (position (sync w).1 ≡ position w)

-- `DURATION_OFFSET` and `HEADER_LEN`
abbrev pub duration_offset : ℕ
duration_offset = 53

abbrev pub file_header_len : ℕ
file_header_len = 13

overwritten :
    (b xs : List ℕ)
    → length b ≡ 8
    → overwrite duration_offset b (header_bytes ++ xs)
      ≡ (take 53 header_bytes ++ (b ++ drop 61 header_bytes)) ++ xs
overwritten b xs l =
    ap (λ (n : ℕ). take 53 header_bytes ++ (b ++ drop (duration_offset + n) (header_bytes ++ xs))) l
    ∙ ap (λ t. take 53 header_bytes ++ t) (sym (append_assoc b (drop 61 header_bytes) xs))

nothing_more : (n : ℕ) → n + 0 ≡ n
nothing_more n = omega arith

-- `F` stands for float64, and `float_bytes` for what `binary.Write` makes of it.
module _ (os : SeekFile) (F : Type 0) (float_bytes : F → List ℕ) where
  open os use {World}

  -- `File`
  pub record File : Type 0 where
    pub file : World
    pub name : Text
    pub read_only : Bool
    pub size : ℕ
    pub header_buf : List ℕ
    pub duration : F
    pub last_timestamp : ℕ
    pub first_timestamp_set : Bool
    pub first_timestamp : ℕ

  -- What `CreateFile` returns for a file to which it has written the header; the float is 0.0.
  unfoldable pub new_file : F → Text → World → File
  new_file zero_duration name w = record {
    file = w;
    name = name;
    read_only = false;
    size = 0;
    header_buf = replicate 11 0;
    duration = zero_duration;
    last_timestamp = 0;
    first_timestamp_set = false;
    first_timestamp = 0;
  }

  unfoldable pub close_file : File → File
  close_file f = record f { file = os.close f.file }

  unfoldable pub set_duration : F → File → File
  set_duration d f = record f { duration = d }

  -- `Sync`: false for the error.
  unfoldable pub sync : File → Bool × File
  sync f =
      let (at, w1) = os.seek duration_offset from_start f.file in
      elim at [
        | none ↦ (false, record f { file = w1 })
        | some n ↦
            let (written, w2) = os.write (float_bytes f.duration) w1 in
            if not written
            then (false, record f { file = w2 })
            else (let (back, w3) = os.seek 0 from_end w2 in
                elim back [
                  | none ↦ (false, record f { file = w3 })
                  | some m ↦ let (synced, w4) = os.sync w3 in (synced, record f { file = w4 })
                ])
      ]

  unfoldable pub size_of : File → ℕ
  size_of f = f.size

  -- `IsFinished`
  unfoldable pub is_finished : File → Bool × File
  is_finished f =
      let (at, w) = os.seek 0 from_here f.file in
      (elim at [ none ↦ true | some pos ↦ leb f.size pos ], record f { file = w })

  -- `LoopBack`
  unfoldable pub loop_back : File → File
  loop_back f = record f { file = (os.seek file_header_len from_start f.file).1 }

  unfoldable pub file_path : File → Text
  file_path f = f.name

  -- The header of the file with a duration.
  abbrev pub header_with : F → List ℕ
  header_with d = take 53 header_bytes ++ (float_bytes d ++ drop 61 header_bytes)

  -- A recording that is synced without an error holds the duration that was set, in the place for it in
  -- the header, and its tags as before; the next tag is written behind them. A float64 has eight bytes.
  pub sync-recording :
      (f : File) (tags : List Slice)
      → length (float_bytes f.duration) ≡ 8
      → os.contents f.file ≡ header_bytes ++ frames tags
      → (sync f).0 ≡ true
      → (os.contents (sync f).1.file ≡ header_with f.duration ++ frames tags)
        × (os.position (sync f).1.file ≡ length (os.contents (sync f).1.file))
  unfolding sync
  sync-recording f tags l c h = elim (Option-cases (os.seek duration_offset from_start f.file).0) [
    | inl e ↦ absurd (cc (rw (sync, e) at h))
    | inr (n, e) ↦
        let w1 = (os.seek duration_offset from_start f.file).1 in
        let (i, p, s) = os.seek_place duration_offset n from_start f.file e in
        elim (Bool-cases (os.write (float_bytes f.duration) w1).0) [
          | inr bad ↦ absurd (cc (rw (sync, e, bad) at h))
          | inl fine ↦
              let w2 = (os.write (float_bytes f.duration) w1).1 in
              let at : os.position w1 ≡ duration_offset = p ∙ i in
              let old : os.contents w1 ≡ header_bytes ++ frames tags = s ∙ c in
              let new : os.contents w2 ≡ header_with f.duration ++ frames tags =
                os.contents-write (float_bytes f.duration) w1 fine
                ∙ ap (λ (x : ℕ). overwrite x (float_bytes f.duration) (os.contents w1)) at
                ∙ ap (overwrite duration_offset (float_bytes f.duration)) old
                ∙ overwritten (float_bytes f.duration) (frames tags) l in
              elim (Option-cases (os.seek 0 from_end w2).0) [
                | inl e' ↦ absurd (cc (rw (sync, e, fine, e') at h))
                | inr (m, e') ↦
                    let w3 = (os.seek 0 from_end w2).1 in
                    let (i', p', s') = os.seek_place 0 m from_end w2 e' in
                    let (s'', p'') = os.sync_still w3 in
                    let is : (sync f).1.file ≡ (os.sync w3).1 = rw (sync, e, fine, e') refl in
                    let kept : os.contents (sync f).1.file ≡ os.contents w2 =
                      ap os.contents is ∙ s'' ∙ s' in
                    (
                      kept ∙ new,
                      ap os.position is
                          ∙ p''
                          ∙ p'
                          ∙ i'
                          ∙ nothing_more (length (os.contents w2))
                          ∙ ap length (sym kept),
                    )
              ]
        ]
  ]
