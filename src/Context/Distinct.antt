-- ===== src/Context/Distinct.antt =====
-- The entries of a registry with different addresses and serial numbers, under each change.
use livox_mid360_core.Prelude.{
  ℕ, ◌≤◌, ◌≡◌, ◌==◌, ◌∙◌, refl, Bool-cases, false, inl, inr, List, [], ◌∷◌, ◌++◌, arith,
}
use livox_mid360_core.Transport.{same_bytes, same_bytes_sym}
use livox_mid360_core.Context.{
  Entry, Context, has_ip, has_serial, bind_entries, move_entry, erase_receiver,
}

-- No two entries have the same address.
abbrev pub DistinctIps : List Entry → Type 0
DistinctIps [] = Unit {0}
DistinctIps (e ∷ es) = (has_ip es e.ip ≡ false) × DistinctIps es

abbrev pub DistinctSerials : List Entry → Type 0
DistinctSerials [] = Unit {0}
DistinctSerials (e ∷ es) = (has_serial es e.serial ≡ false) × DistinctSerials es

-- What the receive thread needs of an entry.
abbrev pub route_of : Entry → List ℕ × ℕ
route_of e = (e.ip, e.receiver)

abbrev pub routes : List Entry → List (List ℕ × ℕ)
routes [] = []
routes (e ∷ es) = route_of e ∷ routes es

pub record IsRegistry (c : Context) : Type 0 where
  pub ips : DistinctIps c.entries
  pub serials : DistinctSerials c.entries
  pub order : c.seen ≤ c.generation
  pub told : c.observed ≡ c.seen
  pub current : c.seen ≡ c.generation → routes c.snapshot ≡ routes c.entries

module _ (new : Entry) where
  has_ip-append :
      (es : List Entry) (ip : List ℕ)
      → has_ip es ip ≡ false
      → same_bytes new.ip ip ≡ false
      → has_ip (es ++ (new ∷ [])) ip ≡ false
  unfolding has_ip
  has_ip-append [] ip h k = rw k refl
  has_ip-append (e ∷ es) ip h k = ground (arith, has_ip-append es ip)

  has_serial-append :
      (es : List Entry) (s : List ℕ)
      → has_serial es s ≡ false
      → same_bytes new.serial s ≡ false
      → has_serial (es ++ (new ∷ [])) s ≡ false
  unfolding has_serial
  has_serial-append [] s h k = rw k refl
  has_serial-append (e ∷ es) s h k = ground (arith, has_serial-append es s)

  pub DistinctIps-append :
      (es : List Entry) → has_ip es new.ip ≡ false → DistinctIps es → DistinctIps (es ++ (new ∷ []))
  unfolding has_ip
  DistinctIps-append [] h d = (refl, tt)
  DistinctIps-append (e ∷ es) h d = (
    has_ip-append es e.ip d.0 (same_bytes_sym new.ip e.ip ∙ ground arith),
    DistinctIps-append es (ground arith) d.1,
  )

  pub DistinctSerials-append :
      (es : List Entry)
      → has_serial es new.serial ≡ false
      → DistinctSerials es
      → DistinctSerials (es ++ (new ∷ []))
  unfolding has_serial
  DistinctSerials-append [] h d = (refl, tt)
  DistinctSerials-append (e ∷ es) h d = (
    has_serial-append es e.serial d.0 (same_bytes_sym new.serial e.serial ∙ ground arith),
    DistinctSerials-append es (ground arith) d.1,
  )

module _ (receiver device : ℕ) where
  has_ip-bind :
      (es : List Entry) (ip : List ℕ) → has_ip (bind_entries receiver device es) ip ≡ has_ip es ip
  unfolding has_ip bind_entries
  has_ip-bind [] ip = refl
  has_ip-bind (e ∷ es) ip = ground (arith, has_ip-bind es ip)

  has_serial-bind :
      (es : List Entry) (s : List ℕ)
      → has_serial (bind_entries receiver device es) s ≡ has_serial es s
  unfolding has_serial bind_entries
  has_serial-bind [] s = refl
  has_serial-bind (e ∷ es) s = ground (arith, has_serial-bind es s)

  pub DistinctIps-bind :
      (es : List Entry) → DistinctIps es → DistinctIps (bind_entries receiver device es)
  unfolding bind_entries
  DistinctIps-bind [] d = tt
  DistinctIps-bind (e ∷ es) d = (ground (arith, has_ip-bind es e.ip), DistinctIps-bind es d.1)

  pub DistinctSerials-bind :
      (es : List Entry) → DistinctSerials es → DistinctSerials (bind_entries receiver device es)
  unfolding bind_entries
  DistinctSerials-bind [] d = tt
  DistinctSerials-bind (e ∷ es) d =
      (ground (arith, has_serial-bind es e.serial), DistinctSerials-bind es d.1)

  pub routes-bind : (es : List Entry) → routes (bind_entries receiver device es) ≡ routes es
  unfolding bind_entries
  routes-bind [] = refl
  routes-bind (e ∷ es) = ground (arith, routes-bind es)

module _ (receiver : ℕ) (ip : List ℕ) where
  has_ip-move :
      (es : List Entry) (y : List ℕ)
      → has_ip es y ≡ false
      → same_bytes ip y ≡ false
      → has_ip (move_entry receiver ip es) y ≡ false
  unfolding has_ip move_entry
  has_ip-move [] y h k = refl
  has_ip-move (e ∷ es) y h k = ground (arith, has_ip-move es y)

  has_serial-move :
      (es : List Entry) (s : List ℕ) → has_serial (move_entry receiver ip es) s ≡ has_serial es s
  unfolding has_serial move_entry
  has_serial-move [] s = refl
  has_serial-move (e ∷ es) s = ground (arith, has_serial-move es s)

  pub DistinctIps-move :
      (es : List Entry)
      → has_ip es ip ≡ false
      → DistinctIps es
      → DistinctIps (move_entry receiver ip es)
  unfolding has_ip move_entry
  DistinctIps-move [] h d = tt
  DistinctIps-move (e ∷ es) h d = elim (Bool-cases (e.receiver == receiver)) [
    | inl same ↦ rw same (ground arith, d.1)
    | inr other ↦ rw other (
      has_ip-move es e.ip d.0 (same_bytes_sym ip e.ip ∙ ground arith),
      DistinctIps-move es (ground arith) d.1,
    )
  ]

  pub DistinctSerials-move :
      (es : List Entry) → DistinctSerials es → DistinctSerials (move_entry receiver ip es)
  unfolding move_entry
  DistinctSerials-move [] d = tt
  DistinctSerials-move (e ∷ es) d = elim (Bool-cases (e.receiver == receiver)) [
    | inl same ↦ rw same d
    | inr other ↦ rw other (has_serial-move es e.serial ∙ d.0, DistinctSerials-move es d.1)
  ]

module _ (receiver : ℕ) where
  has_ip-erase :
      (es : List Entry) (y : List ℕ)
      → has_ip es y ≡ false
      → has_ip (erase_receiver receiver es) y ≡ false
  unfolding has_ip erase_receiver
  has_ip-erase [] y h = refl
  has_ip-erase (e ∷ es) y h = ground (arith, has_ip-erase es y)

  has_serial-erase :
      (es : List Entry) (y : List ℕ)
      → has_serial es y ≡ false
      → has_serial (erase_receiver receiver es) y ≡ false
  unfolding has_serial erase_receiver
  has_serial-erase [] y h = refl
  has_serial-erase (e ∷ es) y h = ground (arith, has_serial-erase es y)

  pub DistinctIps-erase :
      (es : List Entry) → DistinctIps es → DistinctIps (erase_receiver receiver es)
  unfolding erase_receiver
  DistinctIps-erase [] d = tt
  DistinctIps-erase (e ∷ es) d = elim (Bool-cases (e.receiver == receiver)) [
    | inl same ↦ rw same (DistinctIps-erase es d.1)
    | inr other ↦ rw other (has_ip-erase es e.ip d.0, DistinctIps-erase es d.1)
  ]

  pub DistinctSerials-erase :
      (es : List Entry) → DistinctSerials es → DistinctSerials (erase_receiver receiver es)
  unfolding erase_receiver
  DistinctSerials-erase [] d = tt
  DistinctSerials-erase (e ∷ es) d = elim (Bool-cases (e.receiver == receiver)) [
    | inl same ↦ rw same (DistinctSerials-erase es d.1)
    | inr other ↦ rw other (has_serial-erase es e.serial d.0, DistinctSerials-erase es d.1)
  ]
