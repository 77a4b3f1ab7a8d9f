-- ===== src/Device/Open/Registers.antt =====
-- What opening a device leaves in the registry.
use livox_mid360_core.Prelude.{
  ℕ, ◌+◌, ◌==◌, ◌≡◌, refl, ◌∙◌, Bool-cases, true, false, inl, inr, List, [], ◌∷◌, ◌++◌, none, some,
  Result, ok, err, fault, arith,
}
use livox_mid360_core.Transport.{same_bytes_refl}
use livox_mid360_core.Session.Types.{SessionError, DiscoveredDevice}
use livox_mid360_core.Session.Request.{Session, Call}
use livox_mid360_core.Session.Connect.{connect_device}
use livox_mid360_core.Session.Peer.{KeepsPeer, same_peer, apply_host_setup-KeepsPeer}
use livox_mid360_core.Config.{HostSetupResult, apply_host_setup}
use livox_mid360_core.Event.{DeviceError}
use livox_mid360_core.Context.{
  Entry, Context, AddResult, added, duplicate_ip, duplicate_serial, has_ip, has_serial,
  bind_entries, erase_receiver, begin_remove, find_receiver, find,
}
use livox_mid360_core.Context
use livox_mid360_core.Context.Gone.{has_receiver}
use livox_mid360_core.Device.Connection.{opened}
use livox_mid360_core.Device.Commands.{Device}
use livox_mid360_core.Device.Reconnect.Found.{IsSessionOf, AnySession, connect_device-AnySession}
use livox_mid360_core.Device.Reconnect.Placed.{IsPlaced}
use livox_mid360_core.Device.Open.{
  OpenOptions, OpenEnv, refuses, opening_setup, set_up, registered, after_connect, open_device,
}

module _ (r : ℕ) (e : Entry) (mine : (e.receiver == r) ≡ true) where
  erase_receiver-new :
      (es : List Entry) → has_receiver r es ≡ false → erase_receiver r (es ++ (e ∷ [])) ≡ es
  unfolding erase_receiver has_receiver
  erase_receiver-new [] h = rw mine refl
  erase_receiver-new (x ∷ es) h = ground (arith, erase_receiver-new es)

  find_receiver-bind_new :
      (handle : ℕ) (es : List Entry)
      → has_receiver r es ≡ false
      → find_receiver r (bind_entries r handle (es ++ (e ∷ [])))
        ≡ some (record e { device = some handle })
  unfolding find_receiver bind_entries has_receiver
  find_receiver-bind_new handle [] h = rw (mine, mine) refl
  find_receiver-bind_new handle (x ∷ es) h = ground (arith, find_receiver-bind_new handle es)

  find-bind_new :
      (handle : ℕ) (es : List Entry)
      → has_serial es e.serial ≡ false
      → find e.serial (bind_entries r handle (es ++ (e ∷ []))) ≡ some handle
  unfolding find bind_entries has_serial
  find-bind_new handle [] h = rw (mine, same_bytes_refl e.serial) refl
  find-bind_new handle (x ∷ es) h = ground (arith, find-bind_new handle es)

-- What `open` calls faults: the connect, or the writing of the setup to the LiDAR that is connected.
pub data Faults (options : OpenOptions) (env : OpenEnv) (found : DiscoveredDevice) : Type 0 where
  connecting :
      connect_device found options.session env.connect.opening env.connect.reads ≡ fault
      → Faults options env found
  writing :
      (s : Session)
      → connect_device found options.session env.connect.opening env.connect.reads ≡ ok s
      → (apply_host_setup env.setup none env.local_ip (opening_setup options) s).1 ≡ fault
      → Faults options env found

-- What `open` leaves: a device that the registry has under its address and its serial number, or on an
-- error the registry as it was.
pub data Opened (options : OpenOptions) (env : OpenEnv) (receiver handle : ℕ)
    (found : DiscoveredDevice) (c : Context) : Context × Result DeviceError Device → Type 0 where
  opens :
      (c' : Context) (d : Device)
      → IsPlaced receiver d c'
      → d.info ≡ found
      → d.connection ≡ opened env.now
      → find d.serial c'.entries ≡ some handle
      → Opened options env receiver handle found c (c', ok d)
  refused :
      (c' : Context) (e : DeviceError)
      → c'.entries ≡ c.entries
      → Opened options env receiver handle found c (c', err e)
  faulted :
      (c' : Context)
      → Faults options env found
      → Opened options env receiver handle found c (c', fault)

module _ (options : OpenOptions) (env : OpenEnv) (receiver handle : ℕ) (found : DiscoveredDevice)
    (c : Context) (new : has_receiver receiver c.entries ≡ false) where
  abbrev entry : Entry
  entry = record { ip = found.ip; receiver = receiver; serial = found.serial_number; device = none }

  mine : (entry.receiver == receiver) ≡ true
  mine = ground arith

  abbrev joined : Context
  joined = record c { entries = c.entries ++ (entry ∷ []); generation = c.generation + 1 }

  set_up-Opened :
      (s : Session) (x : Call HostSetupResult)
      → has_serial c.entries found.serial_number ≡ false
      → IsSessionOf found s
      → KeepsPeer s x
      → (x.1 ≡ fault → Faults options env found)
      → Opened options env receiver handle found c
          (set_up options env receiver handle found joined x)
  unfolding begin_remove
  set_up-Opened s (s', ok r) fresh v w why =
      opens _ _
        (record {
          known = refl;
          reached = record {
            reads_serial = w.peer.same_serial ∙ v.reads_serial;
            reaches = w.peer.same_lidar ∙ v.reaches;
          };
          listed = (
            record entry { device = some handle },
            find_receiver-bind_new receiver entry mine handle c.entries new,
            refl,
          );
        })
        refl refl (find-bind_new receiver entry mine handle c.entries fresh)
  set_up-Opened s (s', err e) fresh v w why =
      refused _ _ (erase_receiver-new receiver entry mine c.entries new)
  set_up-Opened s (s', fault) fresh v w why = faulted _ (why refl)

  registered-Opened :
      (s : Session)
      → connect_device found options.session env.connect.opening env.connect.reads ≡ ok s
      → IsSessionOf found s
      → Opened options env receiver handle found c (
          registered options env receiver handle found s
            (Context.add found.ip found.serial_number receiver c))
  unfolding Context.add
  registered-Opened s e v = elim (Bool-cases (has_ip c.entries found.ip)) [
    | inl taken ↦ rw taken (refused _ _ refl)
    | inr free ↦ elim (Bool-cases (has_serial c.entries found.serial_number)) [
      | inl known ↦ rw (free, known) (refused _ _ refl)
      | inr fresh ↦
          rw (free, fresh)
            (set_up-Opened s _ fresh v
              (apply_host_setup-KeepsPeer s env.setup none env.local_ip (opening_setup options) s
                (same_peer s))
              (writing s e))
    ]
  ]

  after_connect-Opened :
      (x : Result SessionError Session)
      → connect_device found options.session env.connect.opening env.connect.reads ≡ x
      → AnySession found x
      → Opened options env receiver handle found c
          (after_connect options env receiver handle found c x)
  after_connect-Opened (ok s) e v = registered-Opened s e v
  after_connect-Opened (err x) e v = refused _ _ refl
  after_connect-Opened fault e v = faulted _ (connecting e)

  -- Opening a device with a new receiver either gives a connected device that the registry has under
  -- its address and its serial number, with a session with it, or ends with an error that leaves the
  -- entries of the registry as they were. It faults only where the connect does, or the writing of the
  -- setup to the LiDAR that is then connected.
  pub open_device-Opened :
      Opened options env receiver handle found c (open_device options env receiver handle found c)
  unfolding open_device
  open_device-Opened = elim (Bool-cases (refuses options)) [
    | inl bad ↦ rw bad (refused _ _ refl)
    | inr fine ↦ rw fine (
        after_connect-Opened
          (connect_device found options.session env.connect.opening env.connect.reads) refl
          (connect_device-AnySession found options.session env.connect.opening env.connect.reads))
  ]
