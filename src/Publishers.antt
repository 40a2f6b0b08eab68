-- ===== src/Publishers.antt =====
-- `Get` and `UpdatePublishers` of utils/util.go, which http-client.go has a copy of: the streams
-- that the cloud node publishes, from its JSON answer.
pub mod Document
mod Tests
use rtp_http_flv.Prelude.{
  ℕ, ◌^◌, ◌<◌, ◌≡◌, Bool, true, false, [], Text, codes, Dict, put, nat_eq, Option, none, some, Run,
  done, panics, ◌>>=◌, deref, text_beq, if◌then◌else◌,
}

-- A float64 of Go with its conversions, and the floats that stand for whole numbers.
pub record Floats : Type 1 where
  pub Float : Type 0
  pub to_uint32 : Float → ℕ
  pub to_int64 : Float → ℕ
  pub to_uint64 : Float → ℕ
  pub of_ℕ : ℕ → Float
  pub to_uint32-of_ℕ : (n : ℕ) → n < 2 ^ 32 → to_uint32 (of_ℕ n) ≡ n
  pub to_int64-of_ℕ : (n : ℕ) → n < 2 ^ 53 → to_int64 (of_ℕ n) ≡ n
  pub to_uint64-of_ℕ : (n : ℕ) → n < 2 ^ 53 → to_uint64 (of_ℕ n) ≡ n

-- A value as encoding/json decodes it into an `interface{}`. The fields of an object are a map.
mutual
  pub data Json (F : Type 0) : Type 0 where
    null : Json F
    bool : Bool → Json F
    num : F → Json F
    str : Text → Json F
    arr : Items F → Json F
    obj : Fields F → Json F

  pub data Items (F : Type 0) : Type 0 where
    nil : Items F
    cons : Json F → Items F → Items F

  pub data Fields (F : Type 0) : Type 0 where
    end : Fields F
    field : Text → Json F → Fields F → Fields F

-- `Publisher`. A start time, which is a Unix time in milliseconds, is not negative.
pub record Publisher : Type 0 where
  pub key : Text
  pub url : Text
  pub start_time : ℕ
  pub ssrc : ℕ
  pub id : ℕ
  pub video_total_bytes : ℕ
  pub video_speed : ℕ
  pub audio_total_bytes : ℕ
  pub audio_speed : ℕ

module _ {F : Type 0} where
  abbrev pub find : Text → Fields F → Option (Json F)
  find k end = none
  find k (field j v fs) = if text_beq j k then some v else find k fs

  -- Type assertions; one that fails is a panic.
  abbrev pub as_obj : Json F → Run (Fields F)
  as_obj (obj fs) = done fs
  as_obj _ = panics

  abbrev pub as_arr : Json F → Run (Items F)
  as_arr (arr xs) = done xs
  as_arr _ = panics

  abbrev pub as_str : Json F → Run Text
  as_str (str t) = done t
  as_str _ = panics

  abbrev pub as_num : Json F → Run F
  as_num (num x) = done x
  as_num _ = panics

  -- Of a missing key nil is read, and no assertion holds of it.
  abbrev pub str_at : Text → Fields F → Run Text
  str_at k fs = deref (find k fs) >>= as_str

  abbrev pub num_at : Text → Fields F → Run F
  num_at k fs = deref (find k fs) >>= as_num

  abbrev pub is_nil : Option (Json F) → Bool
  is_nil none = true
  is_nil (some null) = true
  is_nil (some _) = false

  -- `Get` on the answer, `none` for a request that failed: `none` where it returns nil.
  unfoldable pub get : Option (Json F) → Run (Option (Fields F))
  get none = done none
  get (some answer) = do
    res ← as_obj answer
    content ← deref (find (codes "data") res)
    fs ← as_obj content
    done (if is_nil (find (codes "publishers") fs) then none else some res)

module _ (floats : Floats) where
  open floats use {Float, to_uint32, to_int64, to_uint64}

  -- One element of the list.
  unfoldable pub publisher : Json Float → Run Publisher
  publisher json = do
    p ← as_obj json
    key ← str_at (codes "key") p
    url ← str_at (codes "url") p
    start_time ← num_at (codes "start_time") p
    ssrc ← num_at (codes "ssrc") p
    id ← num_at (codes "stream_id") p
    video_total_bytes ← num_at (codes "video_total_bytes") p
    video_speed ← num_at (codes "video_speed") p
    audio_total_bytes ← num_at (codes "audio_total_bytes") p
    audio_speed ← num_at (codes "audio_speed") p
    done (record {
      key = key;
      url = url;
      start_time = to_int64 start_time;
      ssrc = to_uint32 ssrc;
      id = to_uint32 id;
      video_total_bytes = to_uint64 video_total_bytes;
      video_speed = to_uint64 video_speed;
      audio_total_bytes = to_uint64 audio_total_bytes;
      audio_speed = to_uint64 audio_speed;
    })

  unfoldable pub add_publishers : Items Float → Dict ℕ Publisher → Run (Dict ℕ Publisher)
  add_publishers nil m = done m
  add_publishers (cons json rest) m = publisher json >>= λ p. add_publishers rest (put p.ssrc p m)

  -- `UpdatePublishers` on the answer: `none` for nil.
  unfoldable pub update_publishers : Option (Json Float) → Run (Option (Dict ℕ Publisher))
  unfolding get
  update_publishers answer = do
    got ← get answer
    elim got [
      | none ↦ done none
      | some res ↦ (do
        content ← deref (find (codes "data") res)
        fs ← as_obj content
        pubs ← deref (find (codes "publishers") fs)
        items ← as_arr pubs
        m ← add_publishers items []
        done (some m))
    ]
