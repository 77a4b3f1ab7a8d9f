-- ===== src/Bytes/Writing.antt =====
-- Writes one behind the other: each replaces the front of what is left of the buffer.
use livox_mid360_core.Prelude.{
  ℕ, ◌+◌, ◌≤◌, ◌≡◌, ap, ◌∙◌, List, ◌++◌, length, drop, ok, arith, length-drop, drop-drop,
}
use livox_mid360_core.Bytes.{write_le, copy_to, le_bytes}
use livox_mid360_core.Bytes.Laws.{length-le_bytes, copy_to-append}

module _ {E : Type 0} (p out : List ℕ) (k : ℕ) (at_end : k ≡ length p) where
  pub copy_to_next :
      (bs : List ℕ)
      → k + length bs ≤ length out
      → copy_to {E = E} (p ++ drop k out) k bs ≡ ok (p ++ (bs ++ drop (k + length bs) out))
  copy_to_next bs h =
      copy_to-append p bs (drop k out) k at_end (omega (arith, length-drop k out))
      ∙ ap (λ t. ok (p ++ (bs ++ t))) (drop-drop (length bs) k out)

  pub write_le_next :
      (w v : ℕ)
      → k + w ≤ length out
      → write_le {E = E} w (p ++ drop k out) k v ≡ ok (p ++ (le_bytes w v ++ drop (k + w) out))
  unfolding write_le
  write_le_next w v h =
      copy_to_next (le_bytes w v) (omega (arith, length-le_bytes w v))
      ∙ ap (λ n. ok (p ++ (le_bytes w v ++ drop (k + n) out))) (length-le_bytes w v)
