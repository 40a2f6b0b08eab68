-- ===== src/Hls/TsCache/Recent.antt =====
-- The cache holds the last segments.
use rtp_http_flv.Prelude.{
  suc, ◌-◌, ◌≤◌, ◌≡◌, ◌≢◌, refl, ap, ◌∙◌, sym, true, false, Bool-cases, inl, inr, List, [], ◌∷◌,
  ◌++◌, none, some, if◌then◌else◌, length, length-append, arith, drop, ◌==◌, Text, Dict, text_eq,
  text_beq, text_beq_iff, lookup, put, lookup-delete, lookup-put, append_assoc, append-nil,
}
use rtp_http_flv.Hls.TsCache.{
  TsItem, TsCacheItem, new_ts_cache_item, max_ts_cache_num, evict, set_item,
}

-- A list of segments under their keys.
abbrev pub Entries : Type 0
Entries = Dict Text TsItem

abbrev pub keys : Entries → List Text
keys [] = []
keys ((k, v) ∷ e) = k ∷ keys e

-- No entry has this key.
abbrev pub Fresh : Text → Entries → Type 0
Fresh k [] = Unit
Fresh k ((j, v) ∷ e) = (j ≢ k) × Fresh k e

abbrev pub Distinct : Entries → Type 0
Distinct [] = Unit
Distinct ((k, v) ∷ e) = Fresh k e × Distinct e

-- The cache holds these entries, oldest first.
pub record Shows (c : TsCacheItem) (e : Entries) : Type 0 where
  pub listed : c.ll ≡ keys e
  pub found : (k : Text) → lookup k c.lm ≡ lookup k e
  pub distinct : Distinct e

lookup-Fresh : (k : Text) (e : Entries) → Fresh k e → lookup k e ≡ none
lookup-Fresh k [] f = refl
lookup-Fresh k ((j, v) ∷ e) f = ground (arith, lookup-Fresh k e f.1, text_beq_iff j k)

lookup-append :
    (k j : Text) (v : TsItem) (e : Entries)
    → Fresh k e
    → lookup j (e ++ (k, v) ∷ []) ≡ (if text_beq k j then some v else lookup j e)
lookup-append k j v [] f = refl
lookup-append k j v ((i, w) ∷ e) f =
    ground (arith, lookup-append k j v e f.1, text_beq_iff i j, text_beq_iff k j, text_beq_iff i k)

keys-append : (e : Entries) (k : Text) (v : TsItem) → keys (e ++ (k, v) ∷ []) ≡ keys e ++ k ∷ []
keys-append [] k v = refl
keys-append ((j, w) ∷ e) k v = ap (λ t. j ∷ t) (keys-append e k v)

Fresh-append :
    (j k : Text) (v : TsItem) (e : Entries) → Fresh j e → k ≢ j → Fresh j (e ++ (k, v) ∷ [])
Fresh-append j k v [] f n = (n, tt)
Fresh-append j k v ((i, w) ∷ e) f n = (f.0, Fresh-append j k v e f.1 n)

Distinct-append :
    (k : Text) (v : TsItem) (e : Entries) → Fresh k e → Distinct e → Distinct (e ++ (k, v) ∷ [])
Distinct-append k v [] f d = (tt, tt)
Distinct-append k v ((j, w) ∷ e) f d =
    (Fresh-append j k v e d.0 (λ q. f.0 (sym q)), Distinct-append k v e f.1 d.1)

length-keys : (e : Entries) → length (keys e) ≡ length e
length-keys [] = refl
length-keys ((k, v) ∷ e) = ap suc (length-keys e)

-- What is left when one more segment comes.
abbrev pub older : Entries → Entries
older [] = []
older (x ∷ e) = if suc (length e) == max_ts_cache_num then e else x ∷ e

evict-Shows :
    (c : TsCacheItem) (k : Text) (v : TsItem) (e : Entries)
    → Shows c ((k, v) ∷ e)
    → Shows (evict c c.ll) e
unfolding evict
evict-Shows c k v e s = rw s.listed (record {
  listed = refl;
  found = λ j.
      ground
        (arith, lookup-delete k j c.lm, s.found j, lookup-Fresh k e s.distinct.0, text_beq_iff k j);
  distinct = s.distinct.1;
})

-- The cache with one segment more.
add-Shows :
    (c : TsCacheItem) (key : Text) (item : TsItem) (e : Entries)
    → Shows c e
    → Fresh key e
    → Shows (record c { lm = put key item c.lm; ll = c.ll ++ key ∷ [] }) (e ++ (key, item) ∷ [])
add-Shows c key item e s f = record {
  listed = ap (λ t. t ++ key ∷ []) s.listed ∙ sym (keys-append e key item);
  found = λ j. ground (arith, lookup-put key j item c.lm, lookup-append key j item e f, s.found j);
  distinct = Distinct-append key item e f s.distinct;
}

length-ll : (c : TsCacheItem) (e : Entries) → Shows c e → length c.ll ≡ length e
length-ll c e s = ap length s.listed ∙ length-keys e

older-Fresh : (key : Text) (e : Entries) → Fresh key e → Fresh key (older e)
older-Fresh key [] f = tt
older-Fresh key (x ∷ e) f = elim (Bool-cases (suc (length e) == max_ts_cache_num)) [
  | inl full ↦ rw full f.1
  | inr room ↦ rw room f
]

pub set_item-Shows :
    (c : TsCacheItem) (key : Text) (item : TsItem) (e : Entries)
    → c.num ≡ max_ts_cache_num
    → Shows c e
    → Fresh key e
    → Shows (set_item c key item) (older e ++ (key, item) ∷ [])
unfolding set_item
set_item-Shows c key item [] n s f =
    let room : length c.ll == c.num ≡ false = ground (arith, length-ll c [] s) in
    rw room (add-Shows c key item [] s f)
set_item-Shows c key item ((k, v) ∷ e) n s f =
    let size = length-ll c ((k, v) ∷ e) s in
    elim (Bool-cases (suc (length e) == max_ts_cache_num)) [
      | inl full ↦
          let full' : length c.ll == c.num ≡ true = ground (arith, size, n) in
          rw (full, full') (add-Shows (evict c c.ll) key item e (evict-Shows c k v e s) f.1)
      | inr room ↦
          let room' : length c.ll == c.num ≡ false = ground (arith, size, n) in
          rw (room, room') (add-Shows c key item ((k, v) ∷ e) s f)
    ]

-- A run of segments, one after the other.
unfoldable pub set_all : TsCacheItem → Entries → TsCacheItem
set_all c [] = c
set_all c ((key, item) ∷ rest) = set_all (set_item c key item) rest

-- The last three of some entries.
abbrev pub last_three : Entries → Entries
last_three e = drop (length e - 3) e

length-older : (e : Entries) → length e ≤ 3 → length (older e) ≤ 2
length-older [] h = omega arith
length-older (x ∷ e) h = elim (Bool-cases (suc (length e) == max_ts_cache_num)) [
  | inl full ↦ rw full (omega arith)
  | inr room ↦ rw room (ground (arith, room))
]

length-older_append :
    (e : Entries) (x : Text × TsItem) → length e ≤ 3 → length (older e ++ x ∷ []) ≤ 3
length-older_append e x h = omega (arith, length-older e h, length-append (older e) (x ∷ []))

-- What three entries and a run of later ones leave.
drop-older :
    (e : Entries) (x : Text × TsItem) (rest : Entries)
    → length e ≤ 3
    → last_three ((older e ++ x ∷ []) ++ rest) ≡ last_three (e ++ x ∷ rest)
drop-older [] x rest h = refl
drop-older (a ∷ []) x rest h = refl
drop-older (a ∷ b ∷ []) x rest h = refl
drop-older (a ∷ b ∷ c ∷ []) x rest h =
    ap (λ n. drop n (b ∷ c ∷ x ∷ rest)) (omega arith) ∙ ap (λ n. drop n (a ∷ b ∷ c ∷ x ∷ rest)) one
  where
    one : suc (length rest) ≡ length (a ∷ b ∷ c ∷ x ∷ rest) - 3
    one = omega arith
drop-older (a ∷ b ∷ c ∷ d ∷ e) x rest h = absurd (omega arith)

Fresh-middle :
    (k : Text) (v : TsItem) (e rest : Entries) → Distinct (e ++ (k, v) ∷ rest) → Fresh k e
Fresh-middle k v [] rest d = tt
Fresh-middle k v ((j, w) ∷ e) rest d = (λ q. differs e d.0 (sym q), Fresh-middle k v e rest d.1)
  where
    differs : (e' : Entries) → Fresh j (e' ++ (k, v) ∷ rest) → k ≢ j
    differs [] f = f.0
    differs (y ∷ e') f = differs e' f.1

Distinct-older :
    (e : Entries) (x : Text × TsItem) (rest : Entries)
    → Distinct (e ++ x ∷ rest)
    → Distinct ((older e ++ x ∷ []) ++ rest)
Distinct-older [] x rest d = d
Distinct-older (y ∷ e) x rest d = elim (Bool-cases (suc (length e) == max_ts_cache_num)) [
  | inl full ↦ rw (full, append_assoc e (x ∷ []) rest) d.1
  | inr room ↦ rw (room, append_assoc e (x ∷ []) rest) d
]

set_item-num : (c : TsCacheItem) (key : Text) (item : TsItem) → (set_item c key item).num ≡ c.num
unfolding set_item evict
set_item-num c key item = ground arith

set_all-from :
    (es e : Entries) (c : TsCacheItem)
    → c.num ≡ max_ts_cache_num
    → Shows c e
    → length e ≤ 3
    → Distinct (e ++ es)
    → Shows (set_all c es) (last_three (e ++ es))
unfolding set_all
set_all-from [] e c n s h d =
    let short : length e - 3 ≡ 0 = omega arith in
    let all : last_three (e ++ []) ≡ e = ap last_three (append-nil e) ∙ ap (λ m. drop m e) short in
    rw all s
set_all-from ((key, item) ∷ es) e c n s h d =
    let x : Text × TsItem = (key, item) in
    rw (← drop-older e x es h) (
      set_all-from es (older e ++ x ∷ []) (set_item c key item) (set_item-num c key item ∙ n)
        (set_item-Shows c key item e n s (Fresh-middle key item e es d)) (length-older_append e x h)
        (Distinct-older e x es d))

-- After any number of segments with different names the cache holds the last three of them, oldest
-- first, each under its name, and no other.
pub set_all-Shows :
    (es : Entries) → Distinct es → Shows (set_all new_ts_cache_item es) (last_three es)
unfolding new_ts_cache_item
set_all-Shows es d =
    set_all-from es [] new_ts_cache_item refl
      (record { listed = refl; found = λ k. refl; distinct = tt }) (omega arith) d
