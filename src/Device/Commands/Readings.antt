-- ===== src/Device/Commands/Readings.antt =====
-- src/device.cpp: reading the windows of the field of view and the state of the time.
use livox_mid360_core.Prelude.{ℕ, List, [], ◌∷◌, none, some, Result, ok, err, ◌>>=◌}
use livox_mid360_core.Prelude.Int.{ℤ}
use livox_mid360_core.Protocol.Types.{KeyValue}
use livox_mid360_core.Keys.{
  KeyError, find_key, key_fov_cfg0, key_fov_cfg1, key_fov_cfg_en, key_local_time_now,
  key_last_sync_time, key_time_offset, key_time_sync_type,
}
use livox_mid360_core.Keys.Scalars.{
  decode_u64, decode_i64, decode_time_sync_type, decode_fov_enable,
}
use livox_mid360_core.Keys.Values.{decode_fov_config}
use livox_mid360_core.Info.{decode_opt}
use livox_mid360_core.Config.{FovSettings}
use livox_mid360_core.Session.Acks.{or_fail}
use livox_mid360_core.Event.{DeviceError, device_error, key_error, decode_failed}
use livox_mid360_core.Device.Commands.{
  CommandOptions, CommandEnv, Device, DeviceCall, then_do, inquire,
}

-- `TimeSyncStatus` of include/livox/mid360/lidar_info.hpp.
pub record TimeSyncStatus : Type 0 where
  pub local_time_ns : ℕ
  pub last_sync_time_ns : ℕ
  pub offset_ns : ℤ
  pub type_code : ℕ

abbrev pub fov_keys : List ℕ
fov_keys = key_fov_cfg0 ∷ key_fov_cfg1 ∷ key_fov_cfg_en ∷ []

abbrev pub time_sync_keys : List ℕ
time_sync_keys = key_local_time_now ∷ key_last_sync_time ∷ key_time_offset ∷ key_time_sync_type ∷ []

-- A window that is missing or refused stays empty.
unfoldable pub fov_of : List KeyValue → Result KeyError FovSettings
fov_of kvs = do
  fov0 ← decode_opt decode_fov_config key_fov_cfg0 kvs
  fov1 ← decode_opt decode_fov_config key_fov_cfg1 kvs
  enable ← decode_opt decode_fov_enable key_fov_cfg_en kvs
  ok (record { fov0 = fov0; fov1 = fov1; enable = enable })

abbrev pub present : ℕ → List KeyValue → Result DeviceError (List ℕ)
present key kvs = elim (find_key kvs key) [
  | none ↦ err (key_error decode_failed key)
  | some raw ↦ ok raw
]

abbrev pub read_as {ℓ} : {A : Type ℓ} → ℕ → Result KeyError A → Result DeviceError A
read_as key r = or_fail (λ e. key_error decode_failed key) r

-- Every key must be there, then every value must be one.
unfoldable pub time_sync_of : List KeyValue → Result DeviceError TimeSyncStatus
time_sync_of kvs = do
  local ← present key_local_time_now kvs
  sync ← present key_last_sync_time kvs
  offset ← present key_time_offset kvs
  kind ← present key_time_sync_type kvs
  v_local ← read_as key_local_time_now (decode_u64 local)
  v_sync ← read_as key_last_sync_time (decode_u64 sync)
  v_offset ← read_as key_time_offset (decode_i64 offset)
  v_type ← read_as key_time_sync_type (decode_time_sync_type kind)
  ok (record {
    local_time_ns = v_local;
    last_sync_time_ns = v_sync;
    offset_ns = v_offset;
    type_code = v_type;
  })

module _ (options : CommandOptions) (env : CommandEnv) where
  unfoldable pub fov : Device → DeviceCall FovSettings
  unfolding inquire fov_of
  fov d =
      then_do (inquire options env d fov_keys)
        (λ d r. (d, or_fail (λ e. device_error decode_failed) (fov_of r.values)))

  unfoldable pub time_sync_status : Device → DeviceCall TimeSyncStatus
  unfolding inquire time_sync_of
  time_sync_status d =
      then_do (inquire options env d time_sync_keys) (λ d r. (d, time_sync_of r.values))
