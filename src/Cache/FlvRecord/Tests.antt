-- ===== src/Cache/FlvRecord/Tests.antt =====
-- A tag in three fragments.
use rtp_http_flv.Prelude.{◌≡◌, ◌<◌, ◌↔◌, refl, panics, true, [], ◌∷◌, some, done, exact}
use rtp_http_flv.Cache.FlvRecord.Assemble.{assemble}
use rtp_http_flv.Cache.FlvRecord.Overflow.{first_fragment_panics}
use rtp_http_flv.Cache.FlvRecord.{FlvRecord, new_flv_record}
use rtp_http_flv.Cache.FlvRecord.Rebuild.{IsIdle, assemble_all, rebuild}

new_flv_record-IsIdle : IsIdle new_flv_record
unfolding new_flv_record
new_flv_record-IsIdle = record { empty = refl; start = refl; found = refl }

-- The body has five bytes.
rebuild_example :
    (r' : FlvRecord) × (assemble_all new_flv_record
        (record { elems = 9 ∷ 0 ∷ 0 ∷ 5 ∷ 0 ∷ 0 ∷ []; spare = 7 ∷ [] }
          ∷ exact (0 ∷ 0 ∷ 0 ∷ 0 ∷ 0 ∷ [])
          ∷ [])
        (exact (1 ∷ 2 ∷ 3 ∷ 4 ∷ 5 ∷ []))
      ≡ done (true, r'))
    × (r'.flv_tag
        ≡ some (exact (9 ∷ 0 ∷ 0 ∷ 5 ∷ 0 ∷ 0 ∷ 0 ∷ 0 ∷ 0 ∷ 0 ∷ 0 ∷ 1 ∷ 2 ∷ 3 ∷ 4 ∷ 5 ∷ [])))
rebuild_example =
    rebuild new_flv_record 9 0 0 5 (0 ∷ 0 ∷ []) (7 ∷ []) (exact (0 ∷ 0 ∷ 0 ∷ 0 ∷ 0 ∷ []) ∷ [])
      (exact (1 ∷ 2 ∷ 3 ∷ 4 ∷ 5 ∷ [])) new_flv_record-IsIdle refl

first_fragment_panics_example :
    (assemble new_flv_record 0 (exact (9 ∷ 0 ∷ 0 ∷ 0 ∷ 1 ∷ 2 ∷ 3 ∷ 4 ∷ 5 ∷ 6 ∷ 7 ∷ 8 ∷ []))
      ≡ panics)
    ↔ (11 < 12)
first_fragment_panics_example =
    first_fragment_panics new_flv_record 9 0 0 0 (1 ∷ 2 ∷ 3 ∷ 4 ∷ 5 ∷ 6 ∷ 7 ∷ 8 ∷ []) []
      new_flv_record-IsIdle
