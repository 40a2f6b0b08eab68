-- ===== src/Client/Tests.antt =====
-- A body that is a list of bytes.
use rtp_http_flv.Prelude.{
  ℕ, ◌<◌, ◌≤◌, ◌≡◌, refl, true, false, List, [], ◌∷◌, ◌++◌, Option, none, some, length, take, drop,
  leb, if◌then◌else◌, done, arith, map,
}
use rtp_http_flv.HttpFlv.Writer.{put_i32_be, flv_header}
use rtp_http_flv.HttpFlv.Writer.Stream.{frames}
use rtp_http_flv.Client.{Body, http_flv}
use rtp_http_flv.Client.Reads.{Tag, slices, as_read, http_flv-frames}

abbrev read_list : ℕ → List ℕ → Option (List ℕ) × List ℕ
read_list n w = if leb n (length w) then (some (take n w), drop n w) else (none, [])

read_list_fills :
    (n : ℕ) (w : List ℕ)
    → n ≤ length w
    → ((read_list n w).0 ≡ some (take n w)) × ((read_list n w).1 ≡ drop n w)
read_list_fills n w h = let e : leb n (length w) ≡ true = ground arith in rw e (refl, refl)

read_list_fails : (n : ℕ) (w : List ℕ) → length w < n → (read_list n w).0 ≡ none
read_list_fails n w h = let e : leb n (length w) ≡ false = ground arith in rw e refl

abbrev listed : Body
listed = record {
  World = List ℕ;
  read_full = read_list;
  pending = λ w. w;
  fills = read_list_fills;
  fails = read_list_fails;
}

abbrev tags : List Tag
tags =
    record { kind = 9; time = 16777217; content = 23 ∷ 0 ∷ [] }
    ∷ record { kind = 8; time = 40; content = 175 ∷ 1 ∷ 2 ∷ [] }
    ∷ []

http_flv-frames_example :
    http_flv listed 3 (flv_header ++ (put_i32_be 0 ++ frames (slices tags)))
    ≡ done (some (map as_read tags, 0))
http_flv-frames_example =
    http_flv-frames listed tags 3 (flv_header ++ (put_i32_be 0 ++ frames (slices tags)))
      ((omega arith, omega arith), ((omega arith, omega arith), tt)) refl (omega arith)
