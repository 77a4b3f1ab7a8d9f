-- ===== src/Bytes/Access.antt =====
-- What `read_le` sees after `write_le`.
use livox_mid360_core.Prelude.{
  ℕ, ◌+◌, ◌-◌, ◌^◌, ◌≤◌, ◌<◌, ◌≡◌, sym, ap, subst, ◌∙◌, ◌⊎◌, inl, inr, List, length, take, drop, ok,
  arith,
}
use livox_mid360_core.Bytes.{le_bytes, le_value, read_le, write_le}
use livox_mid360_core.Bytes.Laws.{
  length-le_bytes, le_value-le_bytes, read_le_ok, splice, copy_to_ok, length-splice, read_written,
  read_before, read_behind,
}

bytes_fit :
    (w : ℕ) (out : List ℕ) (off v : ℕ)
    → off + w ≤ length out
    → off + length (le_bytes w v) ≤ length out
bytes_fit w out off v fits = omega (arith, length-le_bytes w v)

module _ {E : Type 0} (w : ℕ) (out : List ℕ) (off v : ℕ) (fits : off + w ≤ length out) where
  pub write_le_ok : write_le {E = E} w out off v ≡ ok (splice out off (le_bytes w v))
  unfolding write_le
  write_le_ok = copy_to_ok out off (le_bytes w v) (bytes_fit w out off v fits)

  read_back : v < 256 ^ w → read_le {E = E} w (splice out off (le_bytes w v)) off ≡ ok v
  read_back h =
      read_le_ok w (splice out off (le_bytes w v)) off
        (omega (arith, length-splice out off (le_bytes w v) (bytes_fit w out off v fits)))
      ∙ ap (λ n. ok (le_value (take n (drop off (splice out off (le_bytes w v))))))
          (sym (length-le_bytes w v))
      ∙ ap (λ bs. ok (le_value bs))
          (read_written out off (le_bytes w v) (bytes_fit w out off v fits))
      ∙ ap ok (le_value-le_bytes w v h)

  read_elsewhere :
      (n k : ℕ)
      → k + n ≤ length out
      → (k + n ≤ off) ⊎ (off + w ≤ k)
      → read_le {E = E} n (splice out off (le_bytes w v)) k ≡ read_le n out k
  read_elsewhere n k inside apart =
      read_le_ok n (splice out off (le_bytes w v)) k
        (omega (arith, length-splice out off (le_bytes w v) (bytes_fit w out off v fits)))
      ∙ ap (λ bs. ok (le_value bs)) (same apart)
      ∙ sym (read_le_ok n out k inside)
    where
      same :
          (k + n ≤ off) ⊎ (off + w ≤ k)
          → take n (drop k (splice out off (le_bytes w v))) ≡ take n (drop k out)
      same (inl before) = read_before out off (le_bytes w v) (bytes_fit w out off v fits) n k before
      same (inr behind) =
          let e : off + length (le_bytes w v) + (k - (off + w)) ≡ k =
            omega (arith, length-le_bytes w v) in
          ap (take n) (
            subst (λ j. drop j (splice out off (le_bytes w v)) ≡ drop j out) e
              (read_behind out off (le_bytes w v) (bytes_fit w out off v fits) (k - (off + w))))

-- A write that fits the buffer succeeds and keeps its size; a value of that width is then read
-- back at the place, and every other read that fits and does not overlap it sees the old bytes.
pub read_le-write_le :
    {E : Type 0} (w : ℕ) (out : List ℕ) (off v n k : ℕ)
    → off + w ≤ length out
    → v < 256 ^ w
    → k + n ≤ length out
    → (k + n ≤ off) ⊎ (off + w ≤ k)
    → (out' : List ℕ) × (write_le {E = E} w out off v ≡ ok out')
      × (length out' ≡ length out)
      × (read_le {E = E} w out' off ≡ ok v)
      × (read_le {E = E} n out' k ≡ read_le n out k)
read_le-write_le w out off v n k fits range inside apart = (
  splice out off (le_bytes w v),
  write_le_ok w out off v fits,
  length-splice out off (le_bytes w v) (omega (arith, length-le_bytes w v)),
  read_back w out off v fits range,
  read_elsewhere w out off v fits n k inside apart,
)
