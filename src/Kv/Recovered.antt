-- ===== src/Kv/Recovered.antt =====
-- What opening a store recovers from a page of another layout: kv_store.go's recoverSlottedKVFromRaw
-- and recoverJSONKVFromRaw, and importRecoveredKV. A Go map is an association list.
use ultimate_db.Prelude.{
  ℕ, suc, ◌+◌, ◌-◌, ◌^◌, Bool, true, false, ◌||◌, ◌&&◌, not, Option, none, some, List, [], ◌∷◌,
  length, ltb, leb, nat_eq, if◌then◌else◌, take, drop, lookup, insert, Map, bytes_key,
}
use ultimate_db.Bytes.{has_prefix, le_decode}
use ultimate_db.Memory.{read_bytes}
use ultimate_db.Page.{page_size}
use ultimate_db.BTree.Tree.{Tree, ok, page_full, panicked, lost, set_page}
use ultimate_db.Kv.{
  kv_get, kv_put, btree_page_needs_reset, reset_btree_page, purge_ephemeral_kv_keys,
}

unfoldable pub is_kv_key_char : ℕ → Bool
is_kv_key_char b =
    (leb 97 b && leb b 122)
    || (leb 65 b && leb b 90)
    || (leb 48 b && leb b 57)
    || nat_eq b 58
    || nat_eq b 95
    || nat_eq b 45
    || nat_eq b 46
    || nat_eq b 43

-- The scanner's state behind some bytes of a JSON object.
pub record JsonState : Type 0 where
  pub depth : ℕ
  pub in_string : Bool
  pub escaped : Bool

-- One byte that does not end the object; 92 is a backslash, 34 a quotation mark.
unfoldable pub json_byte : JsonState → ℕ → JsonState
json_byte s b =
    if s.in_string
    then (if s.escaped
        then record s { escaped = false }
        else if nat_eq b 92
        then record s { escaped = true }
        else if nat_eq b 34
        then record s { in_string = false }
        else s)
    else if nat_eq b 34
    then record s { in_string = true }
    else if nat_eq b 123
    then record s { depth = suc s.depth }
    else if nat_eq b 125
    then record s { depth = s.depth - 1 }
    else s

-- The number of bytes up to the end of the object.
unfoldable pub json_end : JsonState → List ℕ → Option ℕ
unfolding json_byte
json_end s [] = none
json_end s (b ∷ bs) =
    let rest = json_end (json_byte s b) bs in
    if not s.in_string && nat_eq b 125 && nat_eq s.depth 1
    then some 1
    else elim rest [ none ↦ none | some n ↦ some (suc n) ]

unfoldable pub extract_json_object : List ℕ → Option (List ℕ × ℕ)
unfolding json_end
extract_json_object [] = none
extract_json_object (b ∷ bs) =
    if nat_eq b 123
    then elim (json_end (record { depth = 0; in_string = false; escaped = false }) (b ∷ bs)) [
      | none ↦ none
      | some n ↦ some (take n (b ∷ bs), n)
    ]
    else none

-- "data:user:", "data:session:", "data:oidc_", "data:policy:", "data:mesh_", "data:client:",
-- "mail:box:", "mail:msg:" and "mail:mbx:".
abbrev pub recoverable_prefixes : List (List ℕ)
recoverable_prefixes =
    (100 ∷ 97 ∷ 116 ∷ 97 ∷ 58 ∷ 117 ∷ 115 ∷ 101 ∷ 114 ∷ 58 ∷ [])
    ∷ (100 ∷ 97 ∷ 116 ∷ 97 ∷ 58 ∷ 115 ∷ 101 ∷ 115 ∷ 115 ∷ 105 ∷ 111 ∷ 110 ∷ 58 ∷ [])
    ∷ (100 ∷ 97 ∷ 116 ∷ 97 ∷ 58 ∷ 111 ∷ 105 ∷ 100 ∷ 99 ∷ 95 ∷ [])
    ∷ (100 ∷ 97 ∷ 116 ∷ 97 ∷ 58 ∷ 112 ∷ 111 ∷ 108 ∷ 105 ∷ 99 ∷ 121 ∷ 58 ∷ [])
    ∷ (100 ∷ 97 ∷ 116 ∷ 97 ∷ 58 ∷ 109 ∷ 101 ∷ 115 ∷ 104 ∷ 95 ∷ [])
    ∷ (100 ∷ 97 ∷ 116 ∷ 97 ∷ 58 ∷ 99 ∷ 108 ∷ 105 ∷ 101 ∷ 110 ∷ 116 ∷ 58 ∷ [])
    ∷ (109 ∷ 97 ∷ 105 ∷ 108 ∷ 58 ∷ 98 ∷ 111 ∷ 120 ∷ 58 ∷ [])
    ∷ (109 ∷ 97 ∷ 105 ∷ 108 ∷ 58 ∷ 109 ∷ 115 ∷ 103 ∷ 58 ∷ [])
    ∷ (109 ∷ 97 ∷ 105 ∷ 108 ∷ 58 ∷ 109 ∷ 98 ∷ 120 ∷ 58 ∷ [])
    ∷ []

unfoldable pub starts_with_one_of : List (List ℕ) → List ℕ → Bool
unfolding has_prefix
starts_with_one_of [] key = false
starts_with_one_of (p ∷ ps) key = has_prefix key p || starts_with_one_of ps key

unfoldable pub is_recoverable_data_key : List ℕ → Bool
unfolding starts_with_one_of
is_recoverable_data_key key = starts_with_one_of recoverable_prefixes key

abbrev pub Entries : Type 0
Entries = Map (List ℕ) (List ℕ)

abbrev is_found : Option (List ℕ) → Bool
is_found none = false
is_found (some val) = true

abbrev count_one : Option ℕ → Option ℕ
count_one none = none
count_one (some n) = some (suc n)

abbrev pub size_of : Option (List ℕ) → ℕ
size_of none = 0
size_of (some val) = length val

-- The longest value of a key wins.
unfoldable pub recover_kv_entry : Entries → List ℕ → List ℕ → Entries
unfolding lookup insert
recover_kv_entry out key val =
    if nat_eq (length key) 0 || nat_eq (length val) 0
    then out
    else if ltb (size_of (lookup key out)) (length val)
    then insert key val out
    else out

unfoldable pub recover_found : Entries → Option (List ℕ × List ℕ) → Entries
unfolding recover_kv_entry
recover_found out none = out
recover_found out (some (key, val)) = recover_kv_entry out key val

abbrev pub word_at : ℕ → List ℕ → ℕ → ℕ
word_at w raw off = le_decode (take w (drop off raw))

-- The record that the bytes begin with, if they look like one: expiresAt is an int64.
unfoldable pub slotted_record : ℕ → List ℕ → Option (List ℕ × List ℕ)
unfolding is_recoverable_data_key le_decode
slotted_record now raw =
    let expires = word_at 8 raw 8 in
    let k = word_at 4 raw 16 in
    let v = word_at 4 raw 20 in
    let key = take k (drop 24 raw) in
    if nat_eq (word_at 8 raw 0) 0 || nat_eq k 0 || ltb 256 k || nat_eq v 0 || ltb 16384 v
    then none
    else if not (nat_eq expires 0) && (leb (2 ^ 63) expires || leb expires now)
    then none
    else if ltb (length raw) (24 + k + v) || not (is_recoverable_data_key key)
    then none
    else some (key, take v (drop (24 + k) raw))

-- The loop over the positions of the page; `raw` is what is left of it.
unfoldable pub recover_slotted_kv_from_raw : ℕ → List ℕ → Entries → Entries
unfolding slotted_record recover_found
recover_slotted_kv_from_raw now [] out = out
recover_slotted_kv_from_raw now (b ∷ raw) out =
    let out' = recover_found out (slotted_record now (b ∷ raw)) in
    let rest = recover_slotted_kv_from_raw now raw out' in
    if ltb 24 (suc (length raw)) then rest else out

unfoldable pub key_chars : List ℕ → ℕ
unfolding is_kv_key_char
key_chars [] = 0
key_chars (b ∷ bs) = let n = key_chars bs in if is_kv_key_char b then suc n else 0

abbrev pub data_marker : List ℕ
data_marker = 100 ∷ 97 ∷ 116 ∷ 97 ∷ 58 ∷ []

-- "data:", a key and a JSON object.
unfoldable pub json_record : List ℕ → Option (List ℕ × List ℕ)
unfolding has_prefix key_chars is_recoverable_data_key extract_json_object
json_record raw =
    let n = key_chars (drop 5 raw) in
    let key = take (5 + n) raw in
    if not (has_prefix raw data_marker) || nat_eq n 0 || not (is_recoverable_data_key key)
    then none
    else elim (extract_json_object (drop (5 + n) raw)) [
      | none ↦ none
      | some (val, end) ↦ some (key, val)
    ]

unfoldable pub recover_json_kv_from_raw : List ℕ → Entries → Entries
unfolding json_record recover_found
recover_json_kv_from_raw [] out = out
recover_json_kv_from_raw (b ∷ raw) out =
    let out' = recover_found out (json_record (b ∷ raw)) in
    let rest = recover_json_kv_from_raw raw out' in if ltb 5 (suc (length raw)) then rest else out

unfoldable pub recover_all : Entries → Entries → Entries
unfolding recover_kv_entry
recover_all [] out = out
recover_all ((key, val) ∷ more) out = recover_all more (recover_kv_entry out key val)

-- `scanned` is what DB.Scan yields for "data:" on the page.
unfoldable pub recover_legacy_kv_records : ℕ → Entries → List ℕ → Entries
unfolding recover_all recover_slotted_kv_from_raw recover_json_kv_from_raw
recover_legacy_kv_records now scanned raw =
    let out = recover_all scanned [] in
    let out = recover_all (recover_slotted_kv_from_raw now raw []) out in
    recover_all (recover_json_kv_from_raw raw []) out

-- `none` is a panic of Insert or a walk longer than the fuel.
unfoldable pub import_recovered_kv : ℕ → Tree → Entries → Tree × Option ℕ
unfolding kv_get kv_put
import_recovered_kv fuel t [] = (t, some 0)
import_recovered_kv fuel t ((key, val) ∷ more) = elim (kv_get fuel t key) [
  | none ↦ (t, none)
  | some existing ↦
      let skip = import_recovered_kv fuel t more in
      let (t', reply) = kv_put fuel t key val in
      let put = import_recovered_kv fuel t' more in
      if is_found existing && leb (length val) (size_of existing) then skip else elim reply [
        | ok ↦ (put.0, count_one put.1)
        | page_full ↦ put
        | panicked ↦ (t', none)
        | lost ↦ (t', none)
      ]
]

-- NewBTreeKVStoreWithRoot: what was recovered and purged.
abbrev pub legacy_kv_page_id : ℕ
legacy_kv_page_id = 1000

-- "state:grant:", "state:log:", "transaction_ledger:" and "state:pop:".
abbrev pub ephemeral_prefixes : List (List ℕ)
ephemeral_prefixes =
    (115 ∷ 116 ∷ 97 ∷ 116 ∷ 101 ∷ 58 ∷ 103 ∷ 114 ∷ 97 ∷ 110 ∷ 116 ∷ 58 ∷ [])
    ∷ (115 ∷ 116 ∷ 97 ∷ 116 ∷ 101 ∷ 58 ∷ 108 ∷ 111 ∷ 103 ∷ 58 ∷ [])
    ∷ (116 ∷ 114 ∷ 97 ∷ 110 ∷ 115 ∷ 97 ∷ 99 ∷ 116 ∷ 105 ∷ 111 ∷ 110 ∷ 95 ∷ 108 ∷ 101 ∷ 100 ∷ 103
        ∷ 101 ∷ 114 ∷ 58 ∷ [])
    ∷ (115 ∷ 116 ∷ 97 ∷ 116 ∷ 101 ∷ 58 ∷ 112 ∷ 111 ∷ 112 ∷ 58 ∷ [])
    ∷ []

unfoldable pub open_store : ℕ → ℕ → Entries → Tree → Tree × Option ℕ
unfolding btree_page_needs_reset reset_btree_page recover_legacy_kv_records import_recovered_kv
    set_page purge_ephemeral_kv_keys
open_store fuel now scanned t =
    let m = t.pages t.root in
    let reset = btree_page_needs_reset m in
    let recovered =
      if nat_eq t.root legacy_kv_page_id || reset
      then recover_legacy_kv_records now scanned (read_bytes m 0 page_size)
      else [] in
    let opened = if reset then set_page t t.root (reset_btree_page m) else t in
    let (t', imported) = import_recovered_kv fuel opened recovered in
    elim imported [
      | none ↦ (t', none)
      | some n ↦
          let (t'', removed) = purge_ephemeral_kv_keys fuel t' ephemeral_prefixes in
          (t'', some (n + removed))
    ]
