-- ===== src/Device/Reconnect/Placed.antt =====
-- Where the registry and the session of a device find it.
use livox_mid360_core.Prelude.{
  ℕ, ◌==◌, ◌≡◌, refl, sym, ap, ◌∙◌, Bool, Bool-cases, Option-cases, true, false, inl, inr, List, [],
  ◌∷◌, Option, none, some,
}
use livox_mid360_core.Transport.{same_bytes, same_bytes_eq}
use livox_mid360_core.Session.Types.{DiscoveredDevice}
use livox_mid360_core.Context.{Context, Entry, find_receiver, has_ip, move_entry, rekey}
use livox_mid360_core.Device.Connection.{Connection}
use livox_mid360_core.Device.Commands.{Device}
use livox_mid360_core.Device.Commands.Stays.{SameDevice}
use livox_mid360_core.Device.Reconnect.Found.{IsSessionOf}

-- The registry takes the datagrams of the address to the receiver.
abbrev pub Listed : ℕ → List ℕ → Context → Type 0
Listed receiver ip c = (e : Entry) × (find_receiver receiver c.entries ≡ some e) × (e.ip ≡ ip)

-- The device is the one with its serial number, the session is with it, and the registry knows where
-- it is.
pub record IsPlaced (receiver : ℕ) (d : Device) (c : Context) : Type 0 where
  pub known : d.info.serial_number ≡ d.serial
  pub reached : IsSessionOf d.info d.session
  pub listed : Listed receiver d.info.ip c

find_receiver_here :
    (receiver : ℕ) (x : Entry) (es : List Entry)
    → (x.receiver == receiver) ≡ true
    → find_receiver receiver (x ∷ es) ≡ some x
unfolding find_receiver
find_receiver_here receiver x es h = rw h refl

find_receiver_empty : (receiver : ℕ) → find_receiver receiver [] ≡ none
unfolding find_receiver
find_receiver_empty receiver = refl

find_receiver_later :
    (receiver : ℕ) (x : Entry) (es : List Entry)
    → (x.receiver == receiver) ≡ false
    → find_receiver receiver (x ∷ es) ≡ find_receiver receiver es
unfolding find_receiver
find_receiver_later receiver x es h = rw h refl

abbrev moved : List ℕ → Option Entry → Option Entry
moved ip none = none
moved ip (some e) = some (record e { ip = ip })

find_receiver-move_entry :
    (receiver : ℕ) (ip : List ℕ) (es : List Entry)
    → find_receiver receiver (move_entry receiver ip es) ≡ moved ip (find_receiver receiver es)
unfolding move_entry
find_receiver-move_entry receiver ip [] = rw (find_receiver_empty receiver) refl
find_receiver-move_entry receiver ip (x ∷ es) = elim (Bool-cases (x.receiver == receiver)) [
  | inl this ↦
      rw
        (
          this,
          find_receiver_here receiver (record x { ip = ip }) es this,
          find_receiver_here receiver x es this,
        )
        refl
  | inr other ↦
      rw
        (
          other,
          find_receiver_later receiver x (move_entry receiver ip es) other,
          find_receiver_later receiver x es other,
        )
        (find_receiver-move_entry receiver ip es)
]

pub IsPlaced-SameDevice :
    (receiver : ℕ) (d d' : Device) (c : Context)
    → SameDevice d d'
    → IsPlaced receiver d c
    → (k : Connection) → IsPlaced receiver (record d' { connection = k }) c
IsPlaced-SameDevice receiver d d' c v w k =
    let (e, found, at_ip) = w.listed in
    record {
      known =
          ap (λ (i : DiscoveredDevice). i.serial_number) v.same_info ∙ w.known ∙ sym v.same_number;
      reached = record {
        reads_serial =
            v.same_session.same_serial
            ∙ w.reached.reads_serial
            ∙ ap (λ (i : DiscoveredDevice). i.serial_number) (sym v.same_info);
        reaches =
            v.same_session.same_lidar
            ∙ w.reached.reaches
            ∙ ap (λ (i : DiscoveredDevice). record { ip = i.ip; port = i.cmd_port })
                (sym v.same_info);
      };
      listed = (e, found, at_ip ∙ ap (λ (i : DiscoveredDevice). i.ip) (sym v.same_info));
    }

-- What the registry did: the receiver is at the address, or nothing changed.
abbrev pub Rekeyed : ℕ → List ℕ → Context → Context × Bool → Type 0
Rekeyed receiver ip c (c', true) = Listed receiver ip c'
Rekeyed receiver ip c (c', false) = c' ≡ c

pub rekey-Rekeyed :
    (receiver : ℕ) (ip : List ℕ) (c : Context) → Rekeyed receiver ip c (rekey receiver ip c)
unfolding rekey
rekey-Rekeyed receiver ip c = elim (Option-cases (find_receiver receiver c.entries)) [
  | inl gone ↦ rw (gone, rekey) refl
  | inr (e, found) ↦ elim (Bool-cases (same_bytes e.ip ip)) [
    | inl same ↦ rw (found, rekey, same) (e, found, same_bytes_eq e.ip ip same)
    | inr other ↦ elim (Bool-cases (has_ip c.entries ip)) [
      | inl taken ↦ rw (found, rekey, other, taken) refl
      | inr free ↦
          rw (found, rekey, other, free)
            (_, find_receiver-move_entry receiver ip c.entries ∙ ap (moved ip) found, refl)
    ]
  ]
]
