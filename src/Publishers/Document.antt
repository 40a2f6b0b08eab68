-- ===== src/Publishers/Document.antt =====
-- The list of publishers is read back from the document that the cloud node writes of it.
use rtp_http_flv.Prelude.{
  ℕ, ◌^◌, ◌<◌, ◌≡◌, refl, ◌∙◌, List, [], ◌∷◌, ◌==◌, codes, Dict, lookup, put, lookup-put, nat_eq,
  Option, none, some, done, All, arith, if◌then◌else◌,
}
use rtp_http_flv.Publishers.{
  Floats, Json, num, str, arr, obj, Items, nil, cons, end, field, Publisher, publisher,
  add_publishers, update_publishers,
}

-- The numbers of a publisher are exact as floats.
pub record IsPublisher (p : Publisher) : Type 0 where
  pub ssrc : p.ssrc < 2 ^ 32
  pub id : p.id < 2 ^ 32
  pub start_time : p.start_time < 2 ^ 53
  pub video_total_bytes : p.video_total_bytes < 2 ^ 53
  pub video_speed : p.video_speed < 2 ^ 53
  pub audio_total_bytes : p.audio_total_bytes < 2 ^ 53
  pub audio_speed : p.audio_speed < 2 ^ 53

-- The last publisher of a stream.
abbrev pub latest : ℕ → List Publisher → Option Publisher
latest s [] = none
latest s (p ∷ ps) = elim (latest s ps) [
  | some q ↦ some q
  | none ↦ (if p.ssrc == s then some p else none)
]

abbrev put_all : List Publisher → Dict ℕ Publisher → Dict ℕ Publisher
put_all [] m = m
put_all (p ∷ ps) m = put_all ps (put p.ssrc p m)

abbrev or_else : Option Publisher → Option Publisher → Option Publisher
or_else (some p) o = some p
or_else none o = o

lookup-put_all :
    (s : ℕ) (ps : List Publisher) (m : Dict ℕ Publisher)
    → lookup s (put_all ps m) ≡ or_else (latest s ps) (lookup s m)
lookup-put_all s [] m = refl
lookup-put_all s (p ∷ ps) m =
    ground (arith, lookup-put_all s ps (put p.ssrc p m), lookup-put p.ssrc s p m)

module _ (floats : Floats) where
  open floats use {Float, of_ℕ}

  -- A publisher as the cloud node writes it.
  abbrev pub entry : Publisher → Json Float
  entry p = obj (
      field (codes "key") (str p.key) (
        field (codes "url") (str p.url) (
          field (codes "stream_id") (num (of_ℕ p.id)) (
            field (codes "video_total_bytes") (num (of_ℕ p.video_total_bytes)) (
              field (codes "video_speed") (num (of_ℕ p.video_speed)) (
                field (codes "audio_total_bytes") (num (of_ℕ p.audio_total_bytes)) (
                  field (codes "audio_speed") (num (of_ℕ p.audio_speed)) (
                    field (codes "start_time") (num (of_ℕ p.start_time))
                      (field (codes "ssrc") (num (of_ℕ p.ssrc)) end)))))))))

  abbrev pub entries : List Publisher → Items Float
  entries [] = nil
  entries (p ∷ ps) = cons (entry p) (entries ps)

  abbrev pub document : List Publisher → Json Float
  document ps = obj (
      field (codes "status") (num (of_ℕ 200))
        (field (codes "data") (obj (field (codes "publishers") (arr (entries ps)) end)) end))

  publisher-entry : (p : Publisher) → IsPublisher p → publisher floats (entry p) ≡ done p
  unfolding publisher
  publisher-entry p v =
      rw
        (
          floats.to_uint32-of_ℕ p.ssrc v.ssrc,
          floats.to_uint32-of_ℕ p.id v.id,
          floats.to_int64-of_ℕ p.start_time v.start_time,
          floats.to_uint64-of_ℕ p.video_total_bytes v.video_total_bytes,
          floats.to_uint64-of_ℕ p.video_speed v.video_speed,
          floats.to_uint64-of_ℕ p.audio_total_bytes v.audio_total_bytes,
          floats.to_uint64-of_ℕ p.audio_speed v.audio_speed,
        )
        refl

  add_publishers-entries :
      (ps : List Publisher) (m : Dict ℕ Publisher)
      → All IsPublisher ps
      → add_publishers floats (entries ps) m ≡ done (put_all ps m)
  unfolding add_publishers
  add_publishers-entries [] m v = refl
  add_publishers-entries (p ∷ ps) m v =
      rw (publisher-entry p v.0) (add_publishers-entries ps (put p.ssrc p m) v.1)

  -- From the answer in which the cloud node lists its publishers `UpdatePublishers` reads a map that
  -- holds, for every stream, the last publisher that the list has for it, with all its fields, and
  -- nothing for a stream that the list does not name. That holds where the numbers are exact as floats.
  pub update_publishers-document :
      (ps : List Publisher)
      → All IsPublisher ps
      → (m : Dict ℕ Publisher) × (update_publishers floats (some (document ps)) ≡ done (some m))
        × ((s : ℕ) → lookup s m ≡ latest s ps)
  unfolding update_publishers
  update_publishers-document ps v = (
    put_all ps [],
    rw (add_publishers-entries ps [] v) refl,
    λ s. lookup-put_all s ps [] ∙ or_none (latest s ps),
  )
    where
      or_none : (o : Option Publisher) → or_else o none ≡ o
      or_none none = refl
      or_none (some p) = refl
