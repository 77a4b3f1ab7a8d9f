-- ===== src/Session/Discover/Found.antt =====
-- What discovery returns.
use livox_mid360_core.Prelude.{
  ℕ, ◌≡◌, refl, inl, inr, List, [], ◌∷◌, ◌++◌, Bool-cases, true, false, not, ◌&&◌, ◌||◌,
  if◌then◌else◌, ok, err, fault, Safe, Safe-map, arith,
}
use livox_mid360_core.Bytes.{All}
use livox_mid360_core.Protocol.CommandFrame.{parse_command_frame}
use livox_mid360_core.Protocol.CommandFrame.Parse.{parse_command_frame-Safe}
use livox_mid360_core.Protocol.Acks.{parse_discovery_ack}
use livox_mid360_core.Transport.{Endpoint, Datagram, same_bytes, same_bytes_refl, same_bytes_sym}
use livox_mid360_core.Session.Types.{DiscoveredDevice}
use livox_mid360_core.Session.Acks.{parse_discovered_device}
use livox_mid360_core.Session.Request.Answers.{Safe-cases}
use livox_mid360_core.Protocol.Acks.NoFault.{Anything, parse_discovery_ack-Safe}
use livox_mid360_core.Session.Discover.{
  DiscoveryOptions, Round, received, Findings, wants, is_duplicate, take_device, take_datagrams,
}

-- No two devices have the same serial number.
abbrev pub AreDistinct : List DiscoveredDevice → Type 0
AreDistinct [] = Unit {0}
AreDistinct (d ∷ ds) = (is_duplicate ds d ≡ false) × AreDistinct ds

-- The devices of the wanted type that the datagrams announce, in order.
abbrev pub announced : DiscoveryOptions → List Datagram → List DiscoveredDevice
announced options [] = []
announced options (d ∷ ds) =
    let rest = announced options ds in
    elim (parse_discovered_device d.bytes d.from) [
      | ok dev ↦ (if wants options.wanted_type dev then dev ∷ [] else []) ++ rest
      | err x ↦ rest
      | fault ↦ rest
    ]

abbrev pub received_in : List Round → List Datagram
received_in [] = []
received_in (received ds ∷ rounds) = ds ++ received_in rounds
received_in (_ ∷ rounds) = received_in rounds

is_duplicate-snoc :
    (found : List DiscoveredDevice) (dev x : DiscoveredDevice)
    → is_duplicate (found ++ (dev ∷ [])) x
      ≡ is_duplicate found x || same_bytes dev.serial_number x.serial_number
unfolding is_duplicate
is_duplicate-snoc [] dev x = ground arith
is_duplicate-snoc (f ∷ found) dev x = ground (arith, is_duplicate-snoc found dev x)

AreDistinct-snoc :
    (found : List DiscoveredDevice) (dev : DiscoveredDevice)
    → AreDistinct found
    → is_duplicate found dev ≡ false
    → AreDistinct (found ++ (dev ∷ []))
unfolding is_duplicate
AreDistinct-snoc [] dev h new = (refl, tt)
AreDistinct-snoc (f ∷ found) dev (h, hs) new =
    let apart : same_bytes f.serial_number dev.serial_number ≡ false = ground arith in
    let rest : is_duplicate found dev ≡ false = ground arith in
    let back = same_bytes_sym f.serial_number dev.serial_number in
    (ground (arith, is_duplicate-snoc found dev f), AreDistinct-snoc found dev hs rest)

pub parse_discovered_device-Safe :
    (bytes : List ℕ) (from : Endpoint) → Safe Anything (parse_discovered_device bytes from)
unfolding parse_discovered_device
parse_discovered_device-Safe bytes from =
    elim (Safe-cases (parse_command_frame bytes) (parse_command_frame-Safe bytes)) [
      | inr (x, e) ↦ rw e tt
      | inl (view, e, h) ↦
          elim (Safe-cases (parse_discovery_ack view.payload)
            (parse_discovery_ack-Safe view.payload)) [
              | inr (x, e') ↦ rw (e, e') (ground arith)
              | inl (ack, e', h') ↦ rw (e, e') (ground arith)
            ]
    ]

module _ (options : DiscoveryOptions) where
  abbrev pub AreWanted : List DiscoveredDevice → Type 0
  AreWanted = All (λ dev. wants options.wanted_type dev ≡ true)

  -- Every device of the list has its serial number among those found.
  abbrev pub AreCovered : List DiscoveredDevice → List DiscoveredDevice → Type 0
  AreCovered found = All (λ dev. is_duplicate found dev ≡ true)

  AreWanted-snoc :
      (found : List DiscoveredDevice) (dev : DiscoveredDevice)
      → AreWanted found
      → wants options.wanted_type dev ≡ true
      → AreWanted (found ++ (dev ∷ []))
  AreWanted-snoc [] dev h w = (w, tt)
  AreWanted-snoc (f ∷ found) dev (h, hs) w = (h, AreWanted-snoc found dev hs w)

  -- What was found stays found.
  abbrev pub Keeps : List DiscoveredDevice → List DiscoveredDevice → Type 0
  Keeps old new =
      (dev : DiscoveredDevice) → is_duplicate old dev ≡ true → is_duplicate new dev ≡ true

  AreCovered-Keeps :
      (old new ds : List DiscoveredDevice) → Keeps old new → AreCovered old ds → AreCovered new ds
  AreCovered-Keeps old new [] k h = tt
  AreCovered-Keeps old new (d ∷ ds) k (h, hs) = (k d h, AreCovered-Keeps old new ds k hs)

  AreCovered-append :
      (found xs ys : List DiscoveredDevice)
      → AreCovered found xs
      → AreCovered found ys
      → AreCovered found (xs ++ ys)
  AreCovered-append found [] ys h k = k
  AreCovered-append found (x ∷ xs) ys (h, hs) k = (h, AreCovered-append found xs ys hs k)

  -- From the devices `old` on, with the devices `ds` announced since.
  pub record IsFound (old ds new : List DiscoveredDevice) : Type 0 where
    pub distinct : AreDistinct new
    pub wanted : AreWanted new
    pub keeps : Keeps old new
    pub complete : AreCovered new ds

  abbrev with_device : DiscoveredDevice → List DiscoveredDevice → List DiscoveredDevice
  with_device dev found =
      if wants options.wanted_type dev && not (is_duplicate found dev)
      then found ++ (dev ∷ [])
      else found

  with_device-IsFound :
      (dev : DiscoveredDevice) (found : List DiscoveredDevice)
      → AreDistinct found
      → AreWanted found
      → IsFound found
          (if wants options.wanted_type dev then dev ∷ [] else [])
          (with_device dev found)
  with_device-IsFound dev found h w = elim (Bool-cases (wants options.wanted_type dev)) [
    | inr other ↦ rw other (record { distinct = h; wanted = w; keeps = λ d e. e; complete = tt })
    | inl right ↦ elim (Bool-cases (is_duplicate found dev)) [
      | inl dup ↦
          rw (right, dup)
            (record { distinct = h; wanted = w; keeps = λ d e. e; complete = (dup, tt) })
      | inr new ↦
          let own = same_bytes_refl dev.serial_number in
          rw (right, new)
            (record {
              distinct = AreDistinct-snoc found dev h new;
              wanted = AreWanted-snoc found dev w right;
              keeps = λ d e. ground (arith, is_duplicate-snoc found dev d);
              complete = (ground (arith, is_duplicate-snoc found dev dev), tt);
            })
    ]
  ]

  pub IsFound-then :
      (a xs b ys c : List DiscoveredDevice)
      → IsFound a xs b
      → IsFound b ys c
      → IsFound a (xs ++ ys) c
  IsFound-then a xs b ys c f g = record {
    distinct = g.distinct;
    wanted = g.wanted;
    keeps = λ d e. g.keeps d (f.keeps d e);
    complete = AreCovered-append c xs ys (AreCovered-Keeps b c xs g.keeps f.complete) g.complete;
  }

  pub IsFound-none : (a : List DiscoveredDevice) → AreDistinct a → AreWanted a → IsFound a [] a
  IsFound-none a h w = record { distinct = h; wanted = w; keeps = λ d e. e; complete = tt }

  pub take_datagrams-IsFound :
      (ds : List Datagram) (f : Findings)
      → AreDistinct f.found
      → AreWanted f.found
      → Safe (λ f'. IsFound f.found (announced options ds) f'.found) (take_datagrams options ds f)
  unfolding take_datagrams take_device
  take_datagrams-IsFound [] f h w = IsFound-none f.found h w
  take_datagrams-IsFound (d ∷ ds) f h w =
      elim (Safe-cases (parse_discovered_device d.bytes d.from)
        (parse_discovered_device-Safe d.bytes d.from)) [
          | inr (x, e) ↦ rw (take_datagrams, announced, e) (take_datagrams-IsFound ds f h w)
          | inl (dev, e, p) ↦
              let step = with_device-IsFound dev f.found h w in
              let f' = take_device options d.from dev f in
              rw (take_datagrams, announced, e)
                (Safe-map _ _ (take_datagrams options ds f')
                  (λ g k.
                    IsFound-then f.found (if wants options.wanted_type dev then dev ∷ [] else [])
                      f'.found (announced options ds) g.found step k)
                  (take_datagrams-IsFound ds f' step.distinct step.wanted))
        ]
