-- ===== src/Cache/FlvRecord/Assemble.antt =====
-- `extractFlv` of cache/RtpQueue.go, the part that puts a tag together from the payloads of RTP
-- packets.
use rtp_http_flv.Prelude.{
  ℕ, ◌+◌, Bool, true, false, not, Option, none, some, List, ◌++◌, length, take, drop, replicate,
  ltb, leb, ◌==◌, if◌then◌else◌, Run, done, panics, ◌>>=◌, Slice, exact, reslice, index,
}
use rtp_http_flv.Utils.TagHead.{tag_size, is_tag_head}
use rtp_http_flv.Cache.FlvRecord.{FlvRecord, reset}

-- `Reset()` and `jumpToNextHead = true`
unfoldable pub jump : FlvRecord → FlvRecord
unfolding reset
jump r = record (reset r) { jump_to_next_head = true }

-- `copy(t[pos:pos+len(b)], b)`, which panics beyond the capacity of `t`.
unfoldable pub copy_in : Slice → ℕ → List ℕ → Run Slice
copy_in t pos b =
    let all = t.elems ++ t.spare in
    if leb (pos + length b) (length all)
    then (let all' = take pos all ++ (b ++ drop (pos + length b) all) in
        done (record { elems = take (length t.elems) all'; spare = drop (length t.elems) all' }))
    else panics

-- The first fragment of a tag: its bytes 1 to 3 say how long the tag is.
unfoldable pub first_fragment : FlvRecord → Slice → Run FlvRecord
first_fragment r payload = do
  size ← reslice payload 1 4
  b1 ← index size.elems 0
  b2 ← index size.elems 1
  b3 ← index size.elems 2
  tag ← copy_in (exact (replicate (tag_size b1 b2 b3) 0)) r.pos payload.elems
  done (record r {
    tag_size = tag_size b1 b2 b3;
    flv_tag = some tag;
    pos = r.pos + length payload.elems;
  })

-- A later fragment, if it fits; else the tag is given up. The Boolean says that it fits.
unfoldable pub next_fragment : FlvRecord → Slice → Slice → Run (Bool × FlvRecord)
next_fragment r tag payload =
    if ltb r.tag_size (r.pos + length payload.elems)
    then done (false, jump r)
    else (do tag' ← copy_in tag r.pos payload.elems; done (true, record r { flv_tag = some tag' }))

-- The fragment of a packet by its marker: the Boolean says that the tag is complete.
unfoldable pub add_fragment : FlvRecord → Option Slice → Bool → Slice → Run (Bool × FlvRecord)
add_fragment r none false payload = do r' ← first_fragment r payload; done (false, r')
add_fragment r none true payload = done (true, record r { flv_tag = some payload })
add_fragment r (some tag) false payload = do
  (fits, r') ← next_fragment r tag payload
  done (false, if fits then record r' { pos = r.pos + length payload.elems } else r')
add_fragment r (some tag) true payload = next_fragment r tag payload

-- The packet of a marker and a payload: while a head is searched, a payload that is not one is
-- skipped.
unfoldable pub assemble : FlvRecord → ℕ → Slice → Run (Bool × FlvRecord)
assemble r marker payload = do
  skip ←
      (if r.jump_to_next_head then (do h ← is_tag_head payload.elems; done (not h)) else done false)
  if skip
      then done (false, r)
      else add_fragment (record r { jump_to_next_head = false }) r.flv_tag (not (marker == 0))
          payload
