-- ===== src/Protocol/KeyValues/RoundTrip.antt =====
-- A list that is appended parses back.
use mathlib.Core.List.{append_assoc, append-nil}
use livox_mid360_core.Prelude.{
  ℕ, suc, ◌+◌, ◌^◌, ◌≤◌, ◌<◌, ◌≡◌, refl, sym, ap, ◌∙◌, List, [], ◌∷◌, ◌++◌, length, take, drop,
  take-append, ok, arith, ltb, ==_iff, false, length-append, length-drop, drop-drop, drop-append,
}
use livox_mid360_core.Bytes.{All, le_value, read_le, subspan}
use livox_mid360_core.Bytes.Laws.{subspan_ok, read_le_ok, le_value-le_bytes}
use livox_mid360_core.Protocol.Types.{ParseError, KeyValue}
use livox_mid360_core.Protocol.KeyValues.{
  size_sub, parse_entries, parse_key_value_list, append_key_value_list,
}
use livox_mid360_core.Protocol.KeyValues.Append.{entry_wire, list_wire, append_key_value_list_lem}

-- The key and the length of the value fit 16 bits.
abbrev pub IsEntry : KeyValue → Type 0
IsEntry kv = (kv.key < 2 ^ 16) × (length kv.value < 2 ^ 16)

module _ (n : ℕ) (in_span : List ℕ) (off : ℕ) (out : List KeyValue) (kv : KeyValue) (rest : List ℕ)
    (fits : IsEntry kv) (small : length in_span < 2 ^ 64) (inside : off ≤ length in_span)
    (here : drop off in_span ≡ entry_wire kv ++ rest) where
  room : length in_span ≡ off + 4 + length kv.value + length rest
  room = omega (arith, length-drop off in_span, ap length here, length-append kv.value rest)

  behind : (k : ℕ) → drop (off + k) in_span ≡ drop k (entry_wire kv ++ rest)
  behind k = sym (drop-drop k off in_span) ∙ ap (drop k) here

  key_read : read_le {E = ParseError} 2 in_span off ≡ ok kv.key
  key_read =
      read_le_ok 2 in_span off (omega (arith, room))
      ∙ ap (λ d. ok (le_value (take 2 d))) here
      ∙ ap ok (le_value-le_bytes 2 kv.key fits.0)

  length_read : read_le {E = ParseError} 2 in_span (off + 2) ≡ ok (length kv.value)
  length_read =
      read_le_ok 2 in_span (off + 2) (omega (arith, room))
      ∙ ap (λ d. ok (le_value (take 2 d))) (behind 2)
      ∙ ap ok (le_value-le_bytes 2 (length kv.value) fits.1)

  value_read : subspan {E = ParseError} in_span (off + 4) (length kv.value) ≡ ok kv.value
  value_read =
      subspan_ok in_span (off + 4) (length kv.value) (omega (arith, room))
      ∙ ap (λ d. ok (take (length kv.value) d)) (behind 4)
      ∙ ap ok (take-append kv.value rest)

  parse_entry :
      parse_entries (suc n) in_span off out
      ≡ parse_entries n in_span (off + 4 + length kv.value) (out ++ (kv ∷ []))
  unfolding parse_entries
  parse_entry =
      let four : ltb (size_sub (length in_span) off) 4 ≡ false = ground (arith, room) in
      let all : ltb (size_sub (length in_span) (off + 4)) (length kv.value) ≡ false =
        ground (arith, room) in
      rw (four, key_read, length_read, all, value_read)

  next_place : drop (off + 4 + length kv.value) in_span ≡ rest
  next_place =
      let n = length kv.value in
      let e : off + 4 + n ≡ off + (4 + n) = omega arith in
      let suffix : drop (4 + n) (entry_wire kv ++ rest) ≡ rest =
        sym (drop-drop n 4 (entry_wire kv ++ rest)) ∙ drop-append kv.value rest in
      ap (λ k. drop k in_span) e ∙ behind (4 + n) ∙ suffix

parse_entries-list_wire :
    (kvs : List KeyValue) (in_span : List ℕ) (off : ℕ) (out : List KeyValue)
    → All IsEntry kvs
    → length in_span < 2 ^ 64
    → off ≤ length in_span
    → drop off in_span ≡ list_wire kvs
    → parse_entries (length kvs) in_span off out ≡ ok (out ++ kvs)
parse_entries-list_wire [] in_span off out fits small inside here =
    let done : off ≡ length in_span = omega (arith, length-drop off in_span, ap length here) in
    unfold parse_entries in rw ((==_iff off (length in_span)).1 done, append-nil out)
parse_entries-list_wire (kv ∷ kvs) in_span off out fits small inside here =
    let rest = list_wire kvs in
    parse_entry (length kvs) in_span off out kv rest fits.0 small inside here
    ∙ parse_entries-list_wire kvs in_span (off + 4 + length kv.value) (out ++ (kv ∷ [])) fits.1
        small (omega (arith, room (length kvs) in_span off out kv rest fits.0 small inside here))
        (next_place (length kvs) in_span off out kv rest fits.0 small inside here)
    ∙ ap ok (append_assoc out (kv ∷ []) kvs)

pub parse_list_wire :
    (kvs : List KeyValue)
    → All IsEntry kvs
    → length (list_wire kvs) < 2 ^ 64
    → parse_key_value_list (list_wire kvs) (length kvs) ≡ ok kvs
unfolding parse_key_value_list
parse_list_wire kvs fits small =
    parse_entries-list_wire kvs (list_wire kvs) 0 [] fits small (omega arith) refl

-- A list whose keys and value sizes fit 16 bits, and whose encoding fits memory, is appended to an
-- empty buffer without a fault, and the buffer parses back to the list.
pub parse_key_value_list-append_key_value_list :
    (kvs : List KeyValue)
    → All IsEntry kvs
    → length (list_wire kvs) < 2 ^ 64
    → (out : List ℕ) × (append_key_value_list {E = ParseError} [] kvs ≡ ok out)
      × (parse_key_value_list out (length kvs) ≡ ok kvs)
parse_key_value_list-append_key_value_list kvs fits small =
    (list_wire kvs, append_key_value_list_lem [] kvs, parse_list_wire kvs fits small)
