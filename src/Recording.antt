-- ===== src/Recording.antt =====
-- utils/flv.go: the file into which a stream is recorded.
pub mod Contents
pub mod File
mod Tests
use rtp_http_flv.Prelude.{
  ℕ, ◌%◌, ◌^◌, ◌≡◌, Bool, true, false, List, [], ◌∷◌, ◌++◌, Option, none, some, if◌then◌else◌,
  length, Slice,
}
use rtp_http_flv.HttpFlv.Writer.{put_i32_be}

-- An `os.File` that has been created: `write` and `sync` return whether they succeeded. By its
-- documentation a write that succeeds has put all the bytes behind the earlier ones, and `Sync`
-- leaves the contents as they are.
pub record OsFile : Type 1 where
  pub World : Type 0
  pub write : List ℕ → World → Bool × World
  pub sync : World → Bool × World
  pub contents : World → List ℕ
  pub contents-write :
      (b : List ℕ) (w : World) → (write b w).0 ≡ true → contents (write b w).1 ≡ contents w ++ b
  pub contents-sync : (w : World) → contents (sync w).1 ≡ contents w

-- `HEADER_BYTES`: the header of the file, and a tag with the name and the place of the duration.
abbrev pub header_bytes : List ℕ
header_bytes =
    0x46 ∷ 0x4c ∷ 0x56 ∷ 0x01 ∷ 0x05 ∷ 0x00 ∷ 0x00 ∷ 0x00 ∷ 0x09 ∷ 0x00 ∷ 0x00 ∷ 0x00 ∷ 0x00 ∷ 0x12
    ∷ 0x00 ∷ 0x00 ∷ 0x28 ∷ 0x00 ∷ 0x00 ∷ 0x00 ∷ 0x00 ∷ 0x00 ∷ 0x00 ∷ 0x00 ∷ 0x02 ∷ 0x00 ∷ 0x0a
    ∷ 0x6f ∷ 0x6e ∷ 0x4d ∷ 0x65 ∷ 0x74 ∷ 0x61 ∷ 0x44 ∷ 0x61 ∷ 0x74 ∷ 0x61 ∷ 0x08 ∷ 0x00 ∷ 0x00
    ∷ 0x00 ∷ 0x01 ∷ 0x00 ∷ 0x08 ∷ 0x64 ∷ 0x75 ∷ 0x72 ∷ 0x61 ∷ 0x74 ∷ 0x69 ∷ 0x6f ∷ 0x6e ∷ 0x00
    ∷ 0x00 ∷ 0x00 ∷ 0x00 ∷ 0x00 ∷ 0x00 ∷ 0x00 ∷ 0x00 ∷ 0x00 ∷ 0x00 ∷ 0x00 ∷ 0x09 ∷ 0x00 ∷ 0x00
    ∷ 0x00 ∷ 0x33 ∷ []

module _ (os : OsFile) where
  open os use {World}

  -- `CreateFile` from where `os.Create` has succeeded; `none` for the error.
  unfoldable pub create_file : World → Option World
  create_file file =
      let (ok, file') = os.write header_bytes file in
      let (ok', file'') = os.sync file' in if ok then (if ok' then some file'' else none) else none

  -- `WriteTagDirect`: false for the error.
  unfoldable pub write_tag_direct : Slice → World → Bool × World
  unfolding put_i32_be
  write_tag_direct tag file =
      let (ok, file') = os.write tag.elems file in
      if ok then os.write (put_i32_be (length tag.elems % 2 ^ 32)) file' else (false, file')

  -- The tags of a stream, up to the first that fails: `extractFlv` then panics.
  unfoldable pub record_all : List Slice → World → Bool × World
  record_all [] file = (true, file)
  record_all (tag ∷ tags) file =
      let (ok, file') = write_tag_direct tag file in
      let rest = record_all tags file' in if ok then rest else (false, file')
