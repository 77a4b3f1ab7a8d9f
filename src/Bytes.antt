-- ===== src/Bytes.antt =====
-- include/livox/mid360/bytes.hpp: little-endian reads and writes, over a span as the list of its
-- bytes. The C++ leaves an access past the end of the span undefined; here it is `fault`.
pub mod Laws
pub mod Access
pub mod Writing
use livox_mid360_core.Prelude.{
  ℕ, zero, suc, ◌+◌, ◌*◌, ◌/◌, ◌%◌, ◌<◌, List, [], ◌∷◌, ◌++◌, length, take, drop, leb, Result, ok,
  fault, if◌then◌else◌, ◌>>=◌,
}

abbrev pub IsByte : ℕ → Type 0
IsByte b = b < 256

abbrev pub All {ℓ} : {A : Type ℓ} → (A → Type 0) → List A → Type 0
All P [] = Unit {0}
All P (x ∷ xs) = P x × All P xs

-- The `w` bytes of a number in memory, least significant first; higher ones are cut off.
abbrev pub le_bytes : ℕ → ℕ → List ℕ
le_bytes zero v = []
le_bytes (suc w) v = v % 256 ∷ le_bytes w (v / 256)

abbrev pub le_value : List ℕ → ℕ
le_value [] = 0
le_value (b ∷ bs) = b + 256 * le_value bs

-- `in.subspan(off, n)`.
unfoldable pub subspan : {E : Type 0} → List ℕ → ℕ → ℕ → Result E (List ℕ)
subspan in_span off n =
    if leb (off + n) (length in_span) then ok (take n (drop off in_span)) else fault

-- `std::memcpy(out.data() + off, bs.data(), bs.size())`.
unfoldable pub copy_to : {E : Type 0} → List ℕ → ℕ → List ℕ → Result E (List ℕ)
copy_to out off bs =
    if leb (off + length bs) (length out)
    then ok (take off out ++ (bs ++ drop (off + length bs) out))
    else fault

-- `read_le<T>(in, offset)` for an unsigned `T` of `w` bytes.
unfoldable pub read_le : {E : Type 0} → ℕ → List ℕ → ℕ → Result E ℕ
read_le w in_span offset = do bs ← subspan in_span offset w; ok (le_value bs)

-- `write_le<T>(out, offset, v)`.
unfoldable pub write_le : {E : Type 0} → ℕ → List ℕ → ℕ → ℕ → Result E (List ℕ)
write_le w out offset v = copy_to out offset (le_bytes w v)
