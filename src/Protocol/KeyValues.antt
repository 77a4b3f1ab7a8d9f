-- ===== src/Protocol/KeyValues.antt =====
-- src/protocol.cpp, "Key-value lists".
pub mod Append
pub mod Parse
pub mod RoundTrip
pub mod Keys
use livox_mid360_core.Prelude.{
  ℕ, zero, suc, ◌+◌, ◌-◌, ◌*◌, ◌%◌, ◌^◌, List, [], ◌∷◌, ◌++◌, length, replicate, ltb, leb, ◌==◌,
  not, if◌then◌else◌, Result, ok, err, ◌>>=◌, ◌>>◌, fail_if,
}
use livox_mid360_core.Bytes.{subspan, copy_to, read_le, write_le}
use livox_mid360_core.Protocol.Types.{ParseError, truncated, key_num_mismatch, KeyValue}

-- `a - b` on `std::size_t`.
abbrev pub size_sub : ℕ → ℕ → ℕ
size_sub a b = if leb b a then a - b else a + 2 ^ 64 - b

-- The loop of `parse_key_value_list`, with the rounds left, the offset and the entries so far.
unfoldable pub parse_entries : ℕ → List ℕ → ℕ → List KeyValue → Result ParseError (List KeyValue)
parse_entries zero in_span off out = do
  fail_if (not (off == length in_span)) key_num_mismatch
  ok out
parse_entries (suc n) in_span off out = do
  fail_if (ltb (size_sub (length in_span) off) 4) truncated
  key ← read_le 2 in_span off
  len ← read_le 2 in_span (off + 2)
  fail_if (ltb (size_sub (length in_span) (off + 4)) len) truncated
  value ← subspan in_span (off + 4) len
  parse_entries n in_span (off + 4 + len) (out ++ (record { key = key; value = value } ∷ []))

unfoldable pub parse_key_value_list : List ℕ → ℕ → Result ParseError (List KeyValue)
unfolding parse_entries
parse_key_value_list in_span key_num = parse_entries key_num in_span 0 []

-- One round of `append_key_value_list`: the buffer grows by zeros, which are written over.
unfoldable pub append_entry : {E : Type 0} → List ℕ → KeyValue → Result E (List ℕ)
append_entry out kv = do
  let o = length out
  out ← write_le 2 (out ++ replicate (4 + length kv.value) 0) o kv.key
  out ← write_le 2 out (o + 2) (length kv.value)
  copy_to out (o + 4) kv.value

unfoldable pub append_key_value_list : {E : Type 0} → List ℕ → List KeyValue → Result E (List ℕ)
unfolding append_entry
append_key_value_list out [] = ok out
append_key_value_list out (kv ∷ kvs) = do out ← append_entry out kv; append_key_value_list out kvs

-- `encode_param_config_request`: key_num, two reserved bytes, the list.
unfoldable pub encode_param_config_request : {E : Type 0} → List KeyValue → Result E (List ℕ)
unfolding append_key_value_list
encode_param_config_request kvs = do
  out ← write_le 2 (replicate 4 0) 0 (length kvs)
  out ← write_le 2 out 2 0
  append_key_value_list out kvs

-- The loop of `encode_param_inquire_request` from key `i` on.
unfoldable pub write_keys : {E : Type 0} → List ℕ → ℕ → List ℕ → Result E (List ℕ)
write_keys out i [] = ok out
write_keys out i (k ∷ keys) = do out ← write_le 2 out (4 + 2 * i) k; write_keys out (i + 1) keys

unfoldable pub encode_param_inquire_request : {E : Type 0} → List ℕ → Result E (List ℕ)
unfolding write_keys
encode_param_inquire_request keys = do
  out ← write_le 2 (replicate (4 + 2 * length keys) 0) 0 (length keys)
  out ← write_le 2 out 2 0
  write_keys out 0 keys
