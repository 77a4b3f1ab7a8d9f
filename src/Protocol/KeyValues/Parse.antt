-- ===== src/Protocol/KeyValues/Parse.antt =====
-- `parse_key_value_list` on any bytes: it reads the list that the bytes encode, or fails.
use mathlib.Core.List.{append_assoc, append-nil}
use livox_mid360_core.Prelude.{
  ℕ, zero, suc, ◌+◌, ◌-◌, ◌^◌, ◌≤◌, ◌<◌, ◌≡◌, refl, sym, ap, ap₂, ◌∙◌, List, [], ◌∷◌, ◌++◌, length,
  take, drop, ok, fault, subst, ◌≢◌, Safe, Safe-map, Safe_ok, arith, ltb, ◌==◌, ==_iff, Bool-cases,
  inl, inr, length-take, length-drop, drop-drop, take-append-drop, drop_all,
}
use livox_mid360_core.Bytes.{IsByte, All, le_bytes, le_value}
use livox_mid360_core.Bytes.Laws.{subspan_ok, read_le_ok, All-take, All-drop, le_bytes_back}
use livox_mid360_core.Protocol.Types.{ParseError, KeyValue}
use livox_mid360_core.Protocol.KeyValues.{size_sub, parse_entries, parse_key_value_list}
use livox_mid360_core.Protocol.KeyValues.Append.{entry_wire, list_wire}

-- The result is `out` and then `n` entries, whose encoding is what stands from `off` on.
abbrev pub ReadsFrom : ℕ → List ℕ → ℕ → List KeyValue → List KeyValue → Type 0
ReadsFrom n in_span off out r =
    (kvs : List KeyValue) × (r ≡ out ++ kvs) × (length kvs ≡ n) × (drop off in_span ≡ list_wire kvs)

-- The entry at the front of `d`, with a value of `len` bytes.
abbrev front : List ℕ → ℕ → KeyValue
front d len = record { key = le_value (take 2 d); value = take len (drop 4 d) }

-- `d` is that entry's encoding and what follows it, if the length field says `len`.
front_wire :
    (d : List ℕ) (len : ℕ)
    → All IsByte d
    → 4 + len ≤ length d
    → len ≡ le_value (take 2 (drop 2 d))
    → entry_wire (front d len) ++ drop len (drop 4 d) ≡ d
front_wire d len bytes fits e =
    let A = le_bytes 2 (le_value (take 2 d)) in
    let V = take len (drop 4 d) in
    let B = le_bytes 2 (length V) in
    let R = drop len (drop 4 d) in
    let two : length (take 2 d) ≡ 2 = omega (arith, length-take 2 d) in
    let next_two : length (take 2 (drop 2 d)) ≡ 2 =
      omega (arith, length-take 2 (drop 2 d), length-drop 2 d) in
    let size : length V ≡ len = omega (arith, length-take len (drop 4 d), length-drop 4 d) in
    let key : A ≡ take 2 d = le_bytes_back 2 (take 2 d) two (All-take IsByte 2 d bytes) in
    let count : B ≡ take 2 (drop 2 d) =
      ap (le_bytes 2) (size ∙ e)
      ∙ le_bytes_back 2 (take 2 (drop 2 d)) next_two
          (All-take IsByte 2 (drop 2 d) (All-drop IsByte 2 d bytes)) in
    let tail : take 2 (drop 2 d) ++ drop 4 d ≡ drop 2 d =
      ap (◌++◌ (take 2 (drop 2 d))) (sym (drop-drop 2 2 d)) ∙ take-append-drop 2 (drop 2 d) in
    append_assoc A (B ++ V) R
    ∙ ap (◌++◌ A) (append_assoc B V R)
    ∙ ap₂ ◌++◌ key (ap₂ ◌++◌ count (take-append-drop len (drop 4 d)) ∙ tail)
    ∙ take-append-drop 2 d

-- One more entry in front.
more :
    (n : ℕ) (in_span : List ℕ) (off len : ℕ) (kv : KeyValue) (out r : List KeyValue)
    → entry_wire kv ++ drop len (drop 4 (drop off in_span)) ≡ drop off in_span
    → ReadsFrom n in_span (off + 4 + len) (out ++ (kv ∷ [])) r
    → ReadsFrom (suc n) in_span off out r
more n in_span off len kv out r front (kvs, e, count, rest) = (
  kv ∷ kvs,
  e ∙ append_assoc out (kv ∷ []) kvs,
  ap suc count,
  sym front
      ∙ ap (◌++◌ (entry_wire kv)) (
          drop-drop len 4 (drop off in_span)
          ∙ drop-drop (4 + len) off in_span
          ∙ ap (λ k. drop k in_span) same
          ∙ rest),
)
  where
    same : off + (4 + len) ≡ off + 4 + len
    same = omega arith

parse_entries-ReadsFrom :
    (n : ℕ) (in_span : List ℕ) (off : ℕ) (out : List KeyValue)
    → All IsByte in_span
    → length in_span < 2 ^ 64
    → off ≤ length in_span
    → Safe (ReadsFrom n in_span off out) (parse_entries n in_span off out)
unfolding parse_entries
parse_entries-ReadsFrom zero in_span off out bytes small inside =
    elim (Bool-cases (off == length in_span)) [
      | inl done ↦ rw done (
        [],
        sym (append-nil out),
        refl,
        ap (λ k. drop k in_span) ((==_iff off _).0 done) ∙ drop_all in_span,
      )
      | inr more ↦ rw more tt
    ]
parse_entries-ReadsFrom (suc n) in_span off out bytes small inside =
    let d = drop off in_span in
    let left : length d ≡ length in_span - off = length-drop off in_span in
    elim (Bool-cases (ltb (size_sub (length in_span) off) 4)) [
      | inl short ↦ rw short tt
      | inr room ↦
          let head : off + 4 ≤ length in_span = ground arith in
          let len = le_value (take 2 (drop (off + 2) in_span)) in
          rw
            (
              room,
              read_le_ok {E = ParseError} 2 in_span off (omega arith),
              read_le_ok {E = ParseError} 2 in_span (off + 2) (omega arith),
            )
            (elim (Bool-cases (ltb (size_sub (length in_span) (off + 4)) len)) [
              | inl short ↦ rw short tt
              | inr fits ↦
                  let all : off + 4 + len ≤ length in_span = ground arith in
                  rw (fits, subspan_ok {E = ParseError} in_span (off + 4) len all)
                    (rw (← drop-drop 4 off in_span) (
                      Safe-map (ReadsFrom n in_span (off + 4 + len) (out ++ (front d len ∷ []))) _ _
                        (λ r. more n in_span off len (front d len) out r (
                          front_wire d len (All-drop IsByte off in_span bytes) (omega arith)
                            (ap (λ t. le_value (take 2 t)) (sym (drop-drop 2 off in_span)))))
                        (parse_entries-ReadsFrom n in_span (off + 4 + len)
                          (out ++ (front d len ∷ [])) bytes small all)))
            ])
    ]

-- On any bytes a list that is accepted has `key_num` entries, and the bytes are exactly the
-- encoding of those entries: nothing is skipped, and nothing is left over.
pub parse_key_value_list-list_wire :
    (in_span : List ℕ) (key_num : ℕ) (kvs : List KeyValue)
    → All IsByte in_span
    → length in_span < 2 ^ 64
    → parse_key_value_list in_span key_num ≡ ok kvs
    → (length kvs ≡ key_num) × (list_wire kvs ≡ in_span)
unfolding parse_key_value_list
parse_key_value_list-list_wire in_span key_num kvs bytes small e =
    let (read, same, count, wire) =
      Safe_ok (ReadsFrom key_num in_span 0 [])
        (parse_entries-ReadsFrom key_num in_span 0 [] bytes small (omega arith)) e in
    (ap length same ∙ count, ap list_wire same ∙ sym wire)

-- On any bytes that fit memory, no byte outside the span is read, whatever `key_num` says.
pub parse_key_value_list-Safe :
    (in_span : List ℕ) (key_num : ℕ)
    → All IsByte in_span
    → length in_span < 2 ^ 64
    → parse_key_value_list in_span key_num ≢ fault
unfolding parse_key_value_list
parse_key_value_list-Safe in_span key_num bytes small e =
    subst (Safe (ReadsFrom key_num in_span 0 [])) e
      (parse_entries-ReadsFrom key_num in_span 0 [] bytes small (omega arith))
