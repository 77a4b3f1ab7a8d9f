-- ===== src/Transport.antt =====
-- include/livox/mid360/transport.hpp: addresses, errors and datagrams.
use livox_mid360_core.Prelude.{
  ℕ, ◌≡◌, List, [], ◌∷◌, ◌==◌, ==_iff, Bool, true, false, ◌&&◌, arith, refl,
}
use livox_mid360_core.Prelude.Int.{ℤ}

-- `ip` is the four bytes of an `Ipv4`, in network order.
pub record Endpoint : Type 0 where
  pub ip : List ℕ
  pub port : ℕ

abbrev pub broadcast : ℕ → Endpoint
broadcast p = record { ip = 255 ∷ 255 ∷ 255 ∷ 255 ∷ []; port = p }

-- `==` on arrays, strings and lists of bytes.
unfoldable pub same_bytes : List ℕ → List ℕ → Bool
same_bytes [] [] = true
same_bytes (x ∷ xs) (y ∷ ys) = (x == y) && same_bytes xs ys
same_bytes _ _ = false

pub same_bytes_refl : (xs : List ℕ) → same_bytes xs xs ≡ true
unfolding same_bytes
same_bytes_refl [] = refl
same_bytes_refl (x ∷ xs) = rw ((==_iff x x).1 refl) (same_bytes_refl xs)

pub same_bytes_eq : (xs ys : List ℕ) → same_bytes xs ys ≡ true → xs ≡ ys
unfolding same_bytes
same_bytes_eq [] [] h = refl
same_bytes_eq [] (y ∷ ys) h = cc
same_bytes_eq (x ∷ xs) [] h = cc
same_bytes_eq (x ∷ xs) (y ∷ ys) h = grind (arith, ==_iff x y, same_bytes_eq xs ys)

unfoldable pub same_endpoint : Endpoint → Endpoint → Bool
same_endpoint a b = same_bytes a.ip b.ip && (a.port == b.port)

pub data TransportErrorCode : Type 0 where
  socket_create bind set_option address_in_use network_unreachable : TransportErrorCode
  send_failed message_too_long would_block timeout interrupted closed : TransportErrorCode
  invalid_argument other : TransportErrorCode

pub record TransportError : Type 0 where
  pub code : TransportErrorCode
  pub errno_value : ℤ

-- `recv_time_ns` is left to the code that reads it.
pub record Datagram : Type 0 where
  pub bytes : List ℕ
  pub from : Endpoint

pub same_bytes_sym : (xs ys : List ℕ) → same_bytes xs ys ≡ same_bytes ys xs
unfolding same_bytes
same_bytes_sym [] [] = refl
same_bytes_sym [] (y ∷ ys) = refl
same_bytes_sym (x ∷ xs) [] = refl
same_bytes_sym (x ∷ xs) (y ∷ ys) = ground (arith, same_bytes_sym xs ys)
