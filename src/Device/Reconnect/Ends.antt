-- ===== src/Device/Reconnect/Ends.antt =====
-- How an attempt to reconnect ends.
use livox_mid360_core.Prelude.{
  ℕ, ◌+◌, ◌%◌, ◌^◌, ◌≡◌, refl, ◌∙◌, Bool, true, false, if◌then◌else◌, [], ◌∷◌, ◌++◌, none, some,
  Result, ok, err, fault,
}
use livox_mid360_core.Session.Types.{DiscoveredDevice, count_up}
use livox_mid360_core.Session.Request.{Session}
use livox_mid360_core.Session.Peer.{apply_host_setup-KeepsPeer}
use livox_mid360_core.Event.{DeviceError, reconnected}
use livox_mid360_core.Context.{Context, rekey}
use livox_mid360_core.Device.Connection.{Connection, begin_attempt, finish_attempt, fail_attempt}
use livox_mid360_core.Device.Commands.{CommandOptions, Device, DeviceCall}
use livox_mid360_core.Device.Commands.Stays.{
  SameDevice, same_device, Stays, stays, then_do-Stays, wrapped-Stays, set_mode_locked-Stays,
}
use livox_mid360_core.Device.Commands.Stays.Logs.{
  log_control_locked-Stays, debug_data_control_locked-Stays,
}
use livox_mid360_core.Device.Reconnect.{
  ReconnectOptions, AttemptEnv, find_again, when, moved_options, restore, settled, adopt, go_to,
  attempt_locked,
}
use livox_mid360_core.Device.Reconnect.Found.{IsSessionOf, IsFound, find_again-IsFound}
use livox_mid360_core.Device.Reconnect.Placed.{
  IsPlaced, Rekeyed, rekey-Rekeyed, IsPlaced-SameDevice,
}

-- An error, or a fault of a value that is written again.
abbrev pub IsFailure : {A : Type 0} → Result DeviceError A → Type 0
IsFailure (ok a) = ⊥
IsFailure _ = Unit {0}

-- The connection `c'` after an attempt on `c` that was lost, by its result.
pub data Ends (now time : ℕ) (c c' : Connection) : Result DeviceError (Unit {0}) → Type 0 where
  recovers :
      c.connected ≡ false
      → c'.connected ≡ true
      → c'.pending ≡ c.pending ++ (reconnected time ((c.attempts + 1) % 2 ^ 32) ∷ [])
      → c'.reconnects ≡ count_up c.reconnects
      → c'.disconnects ≡ c.disconnects
      → c'.last_push ≡ now
      → c'.reboot_sent ≡ 0
      → c'.rebase_requested ≡ true
      → Ends now time c c' (ok tt)
  gives_up :
      (r : Result DeviceError (Unit {0}))
      → IsFailure r
      → c.connected ≡ false
      → c'.connected ≡ false
      → c'.pending ≡ c.pending
      → c'.reconnects ≡ c.reconnects
      → c'.disconnects ≡ c.disconnects
      → Ends now time c c' r

-- The device, the registry and the result after an attempt of `d`: all as before while it is connected.
pub data Attempted (now time receiver : ℕ) (d : Device) (c : Context)
    : Device × Context × Result DeviceError (Unit {0}) → Type 0 where
  untouched :
      d.connection.connected ≡ true
      → IsPlaced receiver d c
      → Attempted now time receiver d c (d, c, ok tt)
  attempted :
      (d' : Device) (c' : Context) (r : Result DeviceError (Unit {0}))
      → IsPlaced receiver d' c'
      → Ends now time d.connection d'.connection r
      → d'.serial ≡ d.serial
      → Attempted now time receiver d c (d', c', r)

module _ (options : CommandOptions) (reconnect : ReconnectOptions) (env : AttemptEnv) where
  when-Stays :
      (d : Device) (b : Bool) (d' : Device) (call : DeviceCall (Unit {0}))
      → SameDevice d d'
      → Stays d call
      → Stays d (when options reconnect env b d' call)
  when-Stays d true d' call v w = w
  when-Stays d false d' call v w = stays d d' (ok tt) v

  restore-Stays : (d d' : Device) → SameDevice d d' → Stays d (restore options reconnect env d')
  unfolding restore
  restore-Stays d d' v =
      let o = moved_options options reconnect env in
      then_do-Stays d _ _
        (wrapped-Stays o d env.mode d' _ v (
          apply_host_setup-KeepsPeer d.session env.setup none env.local_ip d'.setup d'.session
            v.same_session))
        (λ d1 x v1.
          then_do-Stays d _ _
            (when-Stays d d1.sampling_requested d1 _ v1
              (set_mode_locked-Stays o d (record env.mode { opts = none }) 0x01 d1 v1))
            (λ d2 y v2.
              then_do-Stays d _ _
                (when-Stays d d2.log_requested0 d2 _ v2
                  (log_control_locked-Stays o none env.log0 d 0 true d2 v2))
                (λ d3 z v3.
                  then_do-Stays d _ _
                    (when-Stays d d3.log_requested1 d3 _ v3
                      (log_control_locked-Stays o none env.log1 d 1 true d3 v3))
                    (λ d4 w v4.
                      when-Stays d d4.debug_data_requested d4 _ v4
                        (debug_data_control_locked-Stays o none env.debug_data d true d4 v4)))))

  module _ (receiver : ℕ) (d : Device) (before : Context)
      (lost : d.connection.connected ≡ false) where
    -- The connection while the attempt runs.
    abbrev begun : Connection
    begun = record d.connection {
      attempts = (d.connection.attempts + 1) % 2 ^ 32;
      attempting = some ((d.connection.attempts + 1) % 2 ^ 32);
    }

    recovered :
        (now time : ℕ) (c : Connection)
        → c ≡ begun
        → Ends now time d.connection (finish_attempt now time c) (ok tt)
    unfolding finish_attempt
    recovered now time c h = rw h (recovers lost refl refl refl refl refl refl refl)

    gave_up :
        (now time : ℕ) (c : Connection) (r : Result DeviceError (Unit {0}))
        → c ≡ begun
        → IsFailure r
        → Ends now time d.connection (fail_attempt c) r
    gave_up now time c r h v = rw h (gives_up r v lost lost refl refl refl)

    settled-Attempted :
        (d1 : Device) (c : Context) (x : DeviceCall (Unit {0}))
        → d1.connection ≡ begun
        → d1.serial ≡ d.serial
        → IsPlaced receiver d1 c
        → Stays d1 x
        → Attempted env.now env.time receiver d before (settled options reconnect env c x)
    settled-Attempted d1 c (d', ok y) h n v w =
        attempted _ _ _ (IsPlaced-SameDevice receiver d1 d' c w.device v _)
          (recovered env.now env.time d'.connection (w.device.same_connection ∙ h))
          (w.device.same_number ∙ n)
    settled-Attempted d1 c (d', err e) h n v w =
        attempted _ _ _ (IsPlaced-SameDevice receiver d1 d' c w.device v _)
          (gave_up env.now env.time d'.connection (err e) (w.device.same_connection ∙ h) tt)
          (w.device.same_number ∙ n)
    settled-Attempted d1 c (d', fault) h n v w =
        attempted _ _ _ (IsPlaced-SameDevice receiver d1 d' c w.device v _)
          (gave_up env.now env.time d'.connection fault (w.device.same_connection ∙ h) tt)
          (w.device.same_number ∙ n)

    module _ (d1 : Device) (h : d1.connection ≡ begun) (n : d1.serial ≡ d.serial) where
      adopt-Attempted :
          (f : DiscoveredDevice) (s : Session) (c : Context) (x : Context × Bool)
          → f.serial_number ≡ d1.serial
          → IsSessionOf f s
          → IsPlaced receiver d1 c
          → Rekeyed receiver f.ip c x
          → Attempted env.now env.time receiver d before (adopt options reconnect env f s d1 x)
      adopt-Attempted f s c (c', true) known reached v listed =
          let d2 = record d1 { info = f; session = s } in
          settled-Attempted d2 c' (restore options reconnect env d2) h n
            (record { known = known; reached = reached; listed = listed })
            (restore-Stays d2 d2 (same_device d2))
      adopt-Attempted f s c (c', false) known reached v same =
          settled-Attempted d1 c' (d1, err _) h n (rw same v) (stays d1 d1 _ (same_device d1))

      go_to-Attempted :
          (c : Context) (x : Result DeviceError (DiscoveredDevice × Session))
          → IsPlaced receiver d1 c
          → IsFound d1.serial x
          → Attempted env.now env.time receiver d before
              (go_to options reconnect env receiver d1 c x)
      go_to-Attempted c (ok (f, s)) v (known, reached) =
          adopt-Attempted f s c (rekey receiver f.ip c) known reached v
            (rekey-Rekeyed receiver f.ip c)
      go_to-Attempted c (err e) v w =
          settled-Attempted d1 c (d1, err e) h n v (stays d1 d1 _ (same_device d1))
      go_to-Attempted c fault v w =
          settled-Attempted d1 c (d1, fault) h n v (stays d1 d1 _ (same_device d1))

  begin_attempt-begun :
      (c : Connection)
      → c.connected ≡ false
      → c.attempting ≡ none
      → begin_attempt c ≡ record c {
        attempts = (c.attempts + 1) % 2 ^ 32;
        attempting = some ((c.attempts + 1) % 2 ^ 32);
      }
  unfolding begin_attempt
  begin_attempt-begun c h a = rw (a, h) refl

  -- An attempt to reconnect a device that the registry has under the address of its session, which is
  -- with its serial number, keeps that so, whatever the sockets, the searches and the LiDAR do. While
  -- the device is connected it changes neither the device nor the registry, and succeeds. Otherwise its result is success exactly when the
  -- device is connected again, with one more recovery in its counter and its events, under the number
  -- of the attempt; after an error, or a fault of a value that is written again, it is still
  -- disconnected, with no event.
  pub attempt_locked-Attempted :
      (receiver : ℕ) (d : Device) (c : Context)
      → d.connection.attempting ≡ none
      → IsPlaced receiver d c
      → Attempted env.now env.time receiver d c (attempt_locked options reconnect env receiver d c)
  unfolding attempt_locked
  attempt_locked-Attempted receiver d c idle v = by_link d.connection.connected refl
    where
      d1 : Device
      d1 = record d { connection = begin_attempt d.connection }

      by_link :
          (b : Bool)
          → d.connection.connected ≡ b
          → Attempted env.now env.time receiver d c (
              if b
              then (d, c, ok tt)
              else go_to options reconnect env receiver d1 c (find_again options reconnect env d1))
      by_link true up = untouched up v
      by_link false lost =
          go_to-Attempted receiver d c lost d1 (begin_attempt-begun d.connection lost idle) refl c
            (find_again options reconnect env d1)
            (IsPlaced-SameDevice receiver d d c (same_device d) v (begin_attempt d.connection))
            (find_again-IsFound options reconnect env d1 v.known)
