-- ===== src/Client.antt =====
-- http-client.go: a player that reads a stream tag by tag, as long as it comes.
pub mod Reads
pub mod Start
mod Tests
use rtp_http_flv.Prelude.{
  ℕ, zero, suc, ◌+◌, ◌-◌, ◌*◌, ◌/◌, ◌≤◌, ◌<◌, ◌≡◌, Bool, true, false, not, ◌&&◌, List, [], ◌∷◌,
  ◌++◌, Option, none, some, ◌==◌, if◌then◌else◌, length, take, drop, Run, done, out_of_fuel, ◌>>=◌,
  index,
}

-- A response's body behind `io.ReadFull`, which by its documentation fills the buffer or fails:
-- `pending` is what the connection still delivers before it ends.
pub record Body : Type 1 where
  pub World : Type 0
  pub read_full : ℕ → World → Option (List ℕ) × World
  pub pending : World → List ℕ
  pub fills :
      (n : ℕ) (w : World)
      → n ≤ length (pending w)
      → ((read_full n w).0 ≡ some (take n (pending w)))
        × (pending (read_full n w).1 ≡ drop n (pending w))
  pub fails : (n : ℕ) (w : World) → length (pending w) < n → (read_full n w).0 ≡ none

pub record TagHeader : Type 0 where
  pub tag_type : ℕ
  pub data_size : ℕ
  pub timestamp : ℕ

abbrev pub header_len : ℕ
header_len = 13

-- `getDelay` of the client, in milliseconds: a time in the future is no delay.
unfoldable pub get_delay : ℕ → TagHeader → ℕ → ℕ
get_delay now header start_time = now - (start_time + header.timestamp)

module _ (body : Body) where
  open body use {World, read_full}

  -- A read that must succeed: `none` where it fails.
  abbrev pub then_read {ℓ} :
      {A : Type ℓ} → ℕ → World → (List ℕ → World → Run (Option A × World)) → Run (Option A × World)
  then_read n w f =
      let (r, w') = read_full n w in elim r [ none ↦ done (none, w') | some b ↦ f b w' ]

  -- The end of `ReadTag`, behind the header of the tag.
  unfoldable pub read_content : TagHeader → World → Run (Option (TagHeader × List ℕ) × World)
  read_content header w =
      then_read header.data_size w
        λ content w'. then_read 4 w' λ previous w''. done (some (header, content), w'')

  -- `ReadTag`: `none` for the error. Shifted bytes have no bit in common.
  unfoldable pub read_tag : World → Run (Option (TagHeader × List ℕ) × World)
  read_tag w = then_read 1 w λ kind w1. then_read 3 w1 λ size w2. then_read 4 w2 λ time w3.
      then_read 3 w3 λ stream w4. do
        k ← index kind 0
        s1 ← index size 0
        s2 ← index size 1
        s3 ← index size 2
        t3 ← index time 3
        t0 ← index time 0
        t1 ← index time 1
        t2 ← index time 2
        read_content
            (record {
              tag_type = k;
              data_size = s1 * 65536 + s2 * 256 + s3;
              timestamp = t3 * 16777216 + t0 * 65536 + t1 * 256 + t2;
            })
            w4

  -- The loop of `httpFlv`: the tags that were read when the connection ends, and `TotalBytes`.
  unfoldable pub read_tags : ℕ → ℕ → World → Run (List (TagHeader × List ℕ) × ℕ)
  read_tags zero total w = out_of_fuel
  read_tags (suc fuel) total w = do
    (r, w') ← read_tag w
    elim r [
      | none ↦ done ([], total)
      | some (header, content) ↦ (do
        (rest, total') ← read_tags fuel (total + length content / 1024) w'
        done ((header, content) ∷ rest, total'))
    ]

  -- `httpFlv` from the response on: `none` where it returns without a tag.
  unfoldable pub http_flv : ℕ → World → Run (Option (List (TagHeader × List ℕ) × ℕ))
  http_flv fuel w =
      let (r, w') = read_full header_len w in
      elim r [
        | none ↦ done none
        | some h ↦ (do
          h0 ← index h 0
          h1 ← index h 1
          h2 ← index h 2
          if not (h0 == 0x46 && h1 == 0x4c && h2 == 0x56)
              then done none
              else (read_tags fuel 0 w' >>= λ t. done (some t)))
      ]
