-- ===== src/Protocol/KeyValues/Append.antt =====
-- The bytes that `append_key_value_list` adds.
use mathlib.Core.List.{append_assoc, append-nil}
use livox_mid360_core.Prelude.{
  ℕ, suc, ◌+◌, ◌≤◌, ◌≡◌, refl, sym, ap, ◌∙◌, List, [], ◌∷◌, ◌++◌, length, replicate, drop, ok,
  arith, length-append, length-replicate, drop_all,
}
use livox_mid360_core.Bytes.{write_le, copy_to, le_bytes}
use livox_mid360_core.Bytes.Laws.{copy_to-append}
use livox_mid360_core.Protocol.Types.{KeyValue}
use livox_mid360_core.Protocol.KeyValues.{append_entry, append_key_value_list}

abbrev pub entry_wire : KeyValue → List ℕ
entry_wire kv = le_bytes 2 kv.key ++ (le_bytes 2 (length kv.value) ++ kv.value)

abbrev pub list_wire : List KeyValue → List ℕ
list_wire [] = []
list_wire (kv ∷ kvs) = entry_wire kv ++ list_wire kvs

module _ {E : Type 0} where
  -- A write at offset `k`, where a prefix of that size ends.
  write_behind :
      (p bs rest : List ℕ) (k : ℕ)
      → k ≡ length p
      → length bs ≤ length rest
      → copy_to {E = E} (p ++ rest) k bs ≡ ok ((p ++ bs) ++ drop (length bs) rest)
  write_behind p bs rest k at_end h =
      copy_to-append p bs rest k at_end h ∙ ap ok (sym (append_assoc p bs (drop (length bs) rest)))

  append_entry_lem :
      (out : List ℕ) (kv : KeyValue) → append_entry {E = E} out kv ≡ ok (out ++ entry_wire kv)
  unfolding append_entry write_le
  append_entry_lem out kv =
      let n = length kv.value in
      let zeros : List ℕ = replicate n 0 in
      let key = le_bytes 2 kv.key in
      let len = le_bytes 2 n in
      let size : length zeros ≡ n = length-replicate n 0 in
      let four : replicate (4 + n) 0 ≡ 0 ∷ 0 ∷ 0 ∷ 0 ∷ zeros =
        let e : 4 + n ≡ suc (suc (suc (suc n))) = omega arith in ap (λ k. replicate k 0) e in
      let at2 : length out + 2 ≡ length (out ++ key) = omega (arith, length-append out key) in
      let at4 : length out + 4 ≡ length ((out ++ key) ++ len) =
        omega (arith, length-append out key, length-append (out ++ key) len) in
      let nothing : drop n zeros ≡ [] = ap (λ k. drop k zeros) (sym size) ∙ drop_all zeros in
      rw (
        four,
        write_behind out key (0 ∷ 0 ∷ 0 ∷ 0 ∷ zeros) (length out) refl (omega arith),
        write_behind (out ++ key) len (0 ∷ 0 ∷ zeros) (length out + 2) at2 (omega arith),
        write_behind ((out ++ key) ++ len) kv.value zeros (length out + 4) at4
            (omega (arith, size)),
        nothing,
        append-nil (((out ++ key) ++ len) ++ kv.value),
        append_assoc (out ++ key) len kv.value,
        append_assoc out key (len ++ kv.value),
      )

  pub append_key_value_list_lem :
      (out : List ℕ) (kvs : List KeyValue)
      → append_key_value_list {E = E} out kvs ≡ ok (out ++ list_wire kvs)
  unfolding append_key_value_list
  append_key_value_list_lem out [] = ap ok (sym (append-nil out))
  append_key_value_list_lem out (kv ∷ kvs) = rw (
    append_entry_lem out kv,
    append_key_value_list_lem (out ++ entry_wire kv) kvs,
    append_assoc out (entry_wire kv) (list_wire kvs),
  )
