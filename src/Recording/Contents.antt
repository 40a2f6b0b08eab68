-- ===== src/Recording/Contents.antt =====
-- What a recording holds.
use rtp_http_flv.Prelude.{
  ℕ, ◌%◌, ◌^◌, ◌≡◌, ap, ◌∙◌, sym, true, Bool-cases, inl, inr, List, [], ◌∷◌, ◌++◌, append_assoc,
  append-nil, some, arith, length, Slice,
}
use rtp_http_flv.HttpFlv.Writer.{put_i32_be}
use rtp_http_flv.HttpFlv.Writer.Stream.{frame, frames}
use rtp_http_flv.Recording.{OsFile, header_bytes, create_file, write_tag_direct, record_all}

module _ (os : OsFile) where
  open os use {World, contents}

  pub create_file-contents :
      (file file' : World)
      → create_file os file ≡ some file'
      → contents file' ≡ contents file ++ header_bytes
  unfolding create_file
  create_file-contents file file' h = elim (Bool-cases (os.write header_bytes file).0) [
    | inr failed ↦ ground (arith, failed)
    | inl written ↦ elim (Bool-cases (os.sync (os.write header_bytes file).1).0) [
      | inr failed ↦ ground (arith, written, failed)
      | inl synced ↦
          let same : (os.sync (os.write header_bytes file).1).1 ≡ file' =
            ground (arith, written, synced) in
          ap contents (sym same)
          ∙ os.contents-sync (os.write header_bytes file).1
          ∙ os.contents-write header_bytes file written
    ]
  ]

  pub write_tag_direct-frame :
      (tag : Slice) (file : World)
      → (write_tag_direct os tag file).0 ≡ true
      → contents (write_tag_direct os tag file).1 ≡ contents file ++ frame tag
  unfolding write_tag_direct
  write_tag_direct-frame tag file h =
      let size : List ℕ = put_i32_be (length tag.elems % 2 ^ 32) in
      elim (Bool-cases (os.write tag.elems file).0) [
        | inr failed ↦ ground (arith, failed)
        | inl written ↦ rw written (
            os.contents-write size (os.write tag.elems file).1 (rw written at h)
            ∙ ap (λ t. t ++ size) (os.contents-write tag.elems file written)
            ∙ append_assoc (contents file) tag.elems size)
      ]

  record_all-frames :
      (tags : List Slice) (file : World)
      → (record_all os tags file).0 ≡ true
      → contents (record_all os tags file).1 ≡ contents file ++ frames tags
  unfolding record_all
  record_all-frames [] file h = sym (append-nil (contents file))
  record_all-frames (tag ∷ tags) file h = elim (Bool-cases (write_tag_direct os tag file).0) [
    | inr failed ↦ ground (arith, failed)
    | inl written ↦ rw written (
        record_all-frames tags (write_tag_direct os tag file).1 (rw written at h)
        ∙ ap (λ t. t ++ frames tags) (write_tag_direct-frame tag file written)
        ∙ append_assoc (contents file) (frame tag) (frames tags))
  ]

  -- A recording that was created and into which tags were written without an error holds the header
  -- of the file, and then each tag followed by its size in four bytes, in the order of the stream.
  pub recording_is_flv :
      (tags : List Slice) (file file' : World)
      → create_file os file ≡ some file'
      → (record_all os tags file').0 ≡ true
      → contents (record_all os tags file').1 ≡ contents file ++ (header_bytes ++ frames tags)
  recording_is_flv tags file file' c r =
      record_all-frames tags file' r
      ∙ ap (λ t. t ++ frames tags) (create_file-contents file file' c)
      ∙ append_assoc (contents file) header_bytes (frames tags)
