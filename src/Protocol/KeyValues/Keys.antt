-- ===== src/Protocol/KeyValues/Keys.antt =====
-- The bytes of an inquire request.
use mathlib.Core.List.{append_assoc}
use livox_mid360_core.Prelude.{
  ℕ, suc, ◌+◌, ◌*◌, ◌≡◌, refl, sym, List, [], ◌∷◌, ◌++◌, length, replicate, ok, arith,
  length-append,
}
use livox_mid360_core.Bytes.{write_le, le_bytes}
use livox_mid360_core.Bytes.Laws.{copy_to-append}
use livox_mid360_core.Protocol.KeyValues.{write_keys, encode_param_inquire_request}

-- Two bytes for each key, in order.
abbrev pub keys_wire : List ℕ → List ℕ
keys_wire [] = []
keys_wire (k ∷ keys) = le_bytes 2 k ++ keys_wire keys

write_keys_lem :
    {E : Type 0} (p : List ℕ) (i : ℕ) (keys : List ℕ)
    → length p ≡ 4 + 2 * i
    → write_keys {E = E} (p ++ replicate (2 * length keys) 0) i keys ≡ ok (p ++ keys_wire keys)
unfolding write_keys write_le
write_keys_lem p i [] e = refl
write_keys_lem {E} p i (k ∷ keys) e =
    let two : 2 * suc (length keys) ≡ suc (suc (2 * length keys)) = omega arith in
    let rest : List ℕ = replicate (2 * length keys) 0 in
    let written =
      copy_to-append {E = E} p (le_bytes 2 k) (0 ∷ 0 ∷ rest) (4 + 2 * i) (sym e) (omega arith) in
    let key = le_bytes 2 k in
    let next =
      write_keys_lem {E = E} (p ++ key) (i + 1) keys (omega (arith, length-append p key)) in
    rw (two, write_keys, written, ← append_assoc p key rest, ← append_assoc p key (keys_wire keys))
      next

pub length-keys_wire : (keys : List ℕ) → length (keys_wire keys) ≡ 2 * length keys
length-keys_wire [] = refl
length-keys_wire (k ∷ keys) = omega (arith, length-keys_wire keys)

pub encode_param_inquire_request_lem :
    {E : Type 0} (keys : List ℕ)
    → encode_param_inquire_request {E = E} keys
      ≡ ok (le_bytes 2 (length keys) ++ (0 ∷ 0 ∷ keys_wire keys))
unfolding encode_param_inquire_request write_le
encode_param_inquire_request_lem {E} keys =
    let n = length keys in
    let rest : List ℕ = replicate (2 * n) 0 in
    let four : 4 + 2 * n ≡ suc (suc (suc (suc (2 * n)))) = omega arith in
    let head : write_le {E = E} 2 (0 ∷ 0 ∷ 0 ∷ 0 ∷ rest) 0 n ≡ ok (le_bytes 2 n ++ (0 ∷ 0 ∷ rest)) =
      copy_to-append {E = E} [] (le_bytes 2 n) (0 ∷ 0 ∷ 0 ∷ 0 ∷ rest) 0 refl (omega arith) in
    let zeros : write_le {E = E} 2 (le_bytes 2 n ++ (0 ∷ 0 ∷ rest)) 2 0
        ≡ ok (le_bytes 2 n ++ (0 ∷ 0 ∷ rest)) =
      copy_to-append {E = E} (le_bytes 2 n) (0 ∷ 0 ∷ []) (0 ∷ 0 ∷ rest) 2 refl (omega arith) in
    rw (encode_param_inquire_request, four, head, zeros)
      (write_keys_lem {E = E} (le_bytes 2 n ++ (0 ∷ 0 ∷ [])) 0 keys (omega arith))
