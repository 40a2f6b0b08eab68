-- ===== src/Cache/FlvRecord/Overflow.antt =====
-- When the first fragment of a tag panics.
use rtp_http_flv.Prelude.{
  ℕ, ◌+◌, ◌<◌, ◌≡◌, ◌↔◌, List, ◌∷◌, length, replicate, panics, arith, append-nil, length-replicate,
}
use rtp_http_flv.Utils.TagHead.{tag_size}
use rtp_http_flv.Cache.FlvRecord.{FlvRecord}
use rtp_http_flv.Cache.FlvRecord.Assemble.{copy_in, first_fragment, add_fragment, assemble}
use rtp_http_flv.Cache.FlvRecord.Rebuild.{IsIdle}

-- A first fragment panics exactly if it is longer than the tag whose size it names: `extractFlv`
-- checks this of the later fragments only. It is stated of a fragment of at least four bytes, and of
-- a record that waits for it.
pub first_fragment_panics :
    (r : FlvRecord) (kind b1 b2 b3 : ℕ) (rest spare : List ℕ)
    → IsIdle r
    → (assemble r 0 (record { elems = kind ∷ b1 ∷ b2 ∷ b3 ∷ rest; spare = spare }) ≡ panics)
      ↔ (tag_size b1 b2 b3 < length rest + 4)
unfolding assemble add_fragment first_fragment copy_in
first_fragment_panics r kind b1 b2 b3 rest spare i =
    let n : length (replicate (tag_size b1 b2 b3) 0) ≡ tag_size b1 b2 b3 =
      length-replicate {A = ℕ} (tag_size b1 b2 b3) 0 in
    let z : List ℕ = replicate (tag_size b1 b2 b3) 0 in
    let e = append-nil z in
    (
      λ h. ground (arith, n, e, i.empty, i.start, i.found),
      λ h. ground (arith, n, e, i.empty, i.start, i.found),
    )
