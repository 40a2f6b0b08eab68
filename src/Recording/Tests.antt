-- ===== src/Recording/Tests.antt =====
-- A file in memory.
use rtp_http_flv.Prelude.{
  ℕ, ◌+◌, ◌≡◌, refl, sym, true, List, [], ◌∷◌, ◌++◌, some, Slice, exact, length, replicate, arith,
}
use rtp_http_flv.Recording.File.{
  SeekFile, overwrite, place, File, new_file, set_duration, sync, header_with, sync-recording,
}
use rtp_http_flv.HttpFlv.Writer.Stream.{frames}
use rtp_http_flv.Recording.{OsFile, header_bytes, create_file, record_all}
use rtp_http_flv.Recording.Contents.{recording_is_flv}

some-inj : {A : Type 0} (a b : A) → some a ≡ some b → a ≡ b
some-inj a b h = ground (arith, h)

abbrev memory : OsFile
memory = record {
  World = List ℕ;
  write = λ b w. (true, w ++ b);
  sync = λ w. (true, w);
  contents = λ w. w;
  contents-write = λ b w h. refl;
  contents-sync = λ w. refl;
}

abbrev tags : List Slice
tags = exact (9 ∷ 0 ∷ 0 ∷ 1 ∷ 23 ∷ []) ∷ exact (8 ∷ 0 ∷ 0 ∷ 0 ∷ []) ∷ []

created : create_file memory [] ≡ some header_bytes
unfolding create_file
created = refl

recorded : (record_all memory tags header_bytes).0 ≡ true
unfolding record_all rtp_http_flv.Recording.write_tag_direct
recorded = refl

recording_is_flv_example :
    (record_all memory tags header_bytes).1 ≡ [] ++ (header_bytes ++ frames tags)
recording_is_flv_example = recording_is_flv memory tags [] header_bytes created recorded

-- The same with a position, where a float is the first of its eight bytes.
abbrev seekable : SeekFile
seekable = record {
  World = ℕ × List ℕ;
  write = λ b w. (true, (w.0 + length b, overwrite w.0 b w.1));
  sync = λ w. (true, w);
  seek = λ offset wh w. let n = place offset wh w.0 (length w.1) in (some n, (n, w.1));
  close = λ w. w;
  contents = λ w. w.1;
  position = λ w. w.0;
  contents-write = λ b w h. refl;
  seek_place = λ offset n wh w h. let same = some-inj _ _ h in (sym same, same, refl);
  sync_still = λ w. (refl, refl);
}

abbrev float_bytes : ℕ → List ℕ
float_bytes x = x ∷ replicate 7 0

abbrev synced_file : File seekable ℕ float_bytes
synced_file =
    set_duration seekable ℕ float_bytes 64
      (new_file seekable ℕ float_bytes 0 [] (0, header_bytes ++ frames tags))

sync-recording_example :
    ((sync seekable ℕ float_bytes synced_file).1.file.1
      ≡ header_with seekable ℕ float_bytes 64 ++ frames tags)
    × ((sync seekable ℕ float_bytes synced_file).1.file.0
        ≡ length ((sync seekable ℕ float_bytes synced_file).1.file.1))
unfolding set_duration new_file sync
sync-recording_example = sync-recording seekable ℕ float_bytes synced_file tags refl refl refl
