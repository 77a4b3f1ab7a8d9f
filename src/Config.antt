-- ===== src/Config.antt =====
-- src/config.cpp with include/livox/mid360/config.hpp: what the host writes to a LiDAR when it starts.
use livox_mid360_core.Prelude.{
  ℕ, ◌==◌, ◌||◌, not, Bool, true, if◌then◌else◌, List, [], ◌∷◌, ◌++◌, Option, none, some, Result,
  ok, err, ◌>>=◌,
}
use livox_mid360_core.Prelude.Int.{ℤ, pos, ltb_ℤ}
use livox_mid360_core.Protocol.Types.{
  DataType, imu, cartesian32, cartesian16, spherical, KeyValue, cmd_param_config,
  ret_param_reboot_effect,
}
use livox_mid360_core.Protocol.Acks.{ParamConfigAck}
use livox_mid360_core.Keys.{
  key_pcl_data_type, key_pattern_mode, key_state_info_host_ip_cfg, key_point_cloud_host_ip_cfg,
  key_imu_host_ip_cfg, key_fov_cfg0, key_fov_cfg1, key_fov_cfg_en, key_detect_mode,
  key_work_tgt_mode, key_imu_data_en, key_time_filter, key_imu_sensor_cfg,
}
use livox_mid360_core.Keys.Scalars.{FovEnable, encode_u8, encode_bool, encode_fov_enable}
use livox_mid360_core.Keys.Values.{
  FovConfig, ImuSensorConfig, fov_in_range, encode_host_ip_config, encode_fov_config,
  encode_imu_sensor_config,
}
use livox_mid360_core.Transport.{same_bytes}
use livox_mid360_core.Session.Types.{SessionError, error_of, invalid_argument}
use livox_mid360_core.Session.Request.{Attempt, Session, Call}
use livox_mid360_core.Session.Commands.{and_then, configure}
use livox_mid360_core.Session.Connect.{Polls, wait_for_state}

-- `FovSettings` of include/livox/mid360/keys.hpp.
pub record FovSettings : Type 0 where
  pub fov0 : Option FovConfig
  pub fov1 : Option FovConfig
  pub enable : Option FovEnable

pub record HostSetup : Type 0 where
  pub ip : Option (List ℕ)
  pub push_port : ℕ
  pub point_port : ℕ
  pub imu_port : ℕ
  pub pcl_data_type : DataType
  pub imu_enable : Bool
  pub work_tgt_mode : Option ℕ
  pub scan_pattern : Option ℕ
  pub fov : Option FovSettings
  pub detect_mode : Option ℕ
  pub time_filter : Option Bool
  pub imu_sensor_config : Option ImuSensorConfig
  pub wait_timeout : ℤ

pub record HostSetupResult : Type 0 where
  pub reboot_required : Bool
  pub final_state : Option ℕ

-- The ports of the LiDAR that its streams come from.
abbrev pub push_source_port : ℕ
push_source_port = 56200

abbrev pub point_cloud_source_port : ℕ
point_cloud_source_port = 56300

abbrev pub imu_source_port : ℕ
imu_source_port = 56400

abbrev pub data_type_byte : DataType → ℕ
data_type_byte imu = 0
data_type_byte cartesian32 = 1
data_type_byte cartesian16 = 2
data_type_byte spherical = 3

-- `put(key, bytes)`, of a value that may be missing.
abbrev pub put_opt {ℓ} :
    {E : Type 0} {A : Type ℓ} → ℕ → (A → Result E (List ℕ)) → Option A → Result E (List KeyValue)
put_opt k encode none = ok []
put_opt k encode (some v) = do bytes ← encode v; ok (record { key = k; value = bytes } ∷ [])

abbrev pub put {ℓ} :
    {E : Type 0} {A : Type ℓ} → ℕ → (A → Result E (List ℕ)) → A → Result E (List KeyValue)
put k encode v = put_opt k encode (some v)

-- The lists of two stages, one after the other.
infixr 6 ◌then_put◌
abbrev pub ◌then_put◌ :
    {E : Type 0} → Result E (List KeyValue) → Result E (List KeyValue) → Result E (List KeyValue)
a then_put b = do xs ← a; ys ← b; ok (xs ++ ys)

unfoldable pub fov_key_values : {E : Type 0} → Option FovSettings → Result E (List KeyValue)
fov_key_values none = ok []
fov_key_values (some f) =
    put_opt key_fov_cfg0 encode_fov_config f.fov0
    then_put put_opt key_fov_cfg1 encode_fov_config f.fov1
    then_put put_opt key_fov_cfg_en (λ e. ok (encode_fov_enable e)) f.enable

-- The entries of `host_setup_key_values`, each with its own copy of the bytes in `storage`.
unfoldable pub host_setup_key_values : {E : Type 0} → HostSetup → List ℕ → Result E (List KeyValue)
unfolding fov_key_values
host_setup_key_values setup host_ip =
    put key_state_info_host_ip_cfg encode_host_ip_config
      (record { ip = host_ip; dst_port = setup.push_port; src_port = push_source_port })
    then_put put key_point_cloud_host_ip_cfg encode_host_ip_config
        (record { ip = host_ip; dst_port = setup.point_port; src_port = point_cloud_source_port })
    then_put put key_imu_host_ip_cfg encode_host_ip_config
        (record { ip = host_ip; dst_port = setup.imu_port; src_port = imu_source_port })
    then_put put key_pcl_data_type (λ t. ok (encode_u8 (data_type_byte t))) setup.pcl_data_type
    then_put put key_imu_data_en (λ b. ok (encode_bool b)) setup.imu_enable
    then_put put_opt key_pattern_mode (λ p. ok (encode_u8 p)) setup.scan_pattern
    then_put fov_key_values setup.fov
    then_put put_opt key_detect_mode (λ m. ok (encode_u8 m)) setup.detect_mode
    then_put put_opt key_time_filter (λ b. ok (encode_bool b)) setup.time_filter
    then_put put_opt key_imu_sensor_cfg (λ c. ok (encode_imu_sensor_config c))
        setup.imu_sensor_config

-- The window is missing or in range.
abbrev pub window_fine : Option FovConfig → Bool
window_fine none = true
window_fine (some f) = fov_in_range f

-- The key of the first window that is out of range.
unfoldable pub fov_out_of_range : Option FovSettings → Option ℕ
fov_out_of_range none = none
fov_out_of_range (some f) =
    if not (window_fine f.fov0)
    then some key_fov_cfg0
    else if not (window_fine f.fov1)
    then some key_fov_cfg1
    else none

-- `kSampling`, `kIdle` and `kReady`.
abbrev pub is_requestable : ℕ → Bool
is_requestable s = s == 0x01 || s == 0x02 || s == 0x09

abbrev pub is_requestable_opt : Option ℕ → Bool
is_requestable_opt none = true
is_requestable_opt (some s) = is_requestable s

abbrev pub config_invalid : ℕ → SessionError
config_invalid key = record (error_of invalid_argument cmd_param_config 0) { error_key = key }

-- What the three calls of the session meet.
pub record SetupCalls : Type 0 where
  pub writes : ℕ → Attempt
  pub mode : ℕ → Attempt
  pub polls : Polls

abbrev pub address_or : List ℕ → Option (List ℕ) → List ℕ
address_or local_ip none = local_ip
address_or local_ip (some ip) = ip

abbrev pub no_address : List ℕ
no_address = 0 ∷ 0 ∷ 0 ∷ 0 ∷ []

abbrev pub needs_reboot : ParamConfigAck → Bool
needs_reboot ack = ack.ret_code == ret_param_reboot_effect

module _ (calls : SetupCalls) (opts : Option ℕ) where
  -- The work mode, once the other keys are written.
  unfoldable pub request_mode : Option ℕ → ℤ → Bool → Session → Call HostSetupResult
  request_mode none wait reboot s =
      (s, ok (record { reboot_required = reboot; final_state = none }))
  request_mode (some mode) wait reboot s =
      and_then
        (configure opts calls.mode s
          (record { key = key_work_tgt_mode; value = encode_u8 mode } ∷ []))
        (λ s ack.
          let reboot' = reboot || needs_reboot ack in
          if ltb_ℤ (pos 0) wait
          then and_then (wait_for_state mode calls.polls s)
              (λ s x. (s, ok (record { reboot_required = reboot'; final_state = some mode })))
          else (s, ok (record { reboot_required = reboot'; final_state = none })))

  unfoldable pub write_setup : HostSetup → List ℕ → Session → Call HostSetupResult
  unfolding request_mode
  write_setup setup ip s =
      and_then (s, host_setup_key_values setup ip)
        (λ s kvs.
          and_then (configure opts calls.writes s kvs)
            (λ s ack. request_mode setup.work_tgt_mode setup.wait_timeout (needs_reboot ack) s))

  -- `apply_host_setup`, with the address of the session's socket.
  unfoldable pub apply_host_setup : List ℕ → HostSetup → Session → Call HostSetupResult
  unfolding write_setup
  apply_host_setup local_ip setup s =
      let ip = address_or local_ip setup.ip in
      if same_bytes ip no_address
      then (s, err (config_invalid key_point_cloud_host_ip_cfg))
      else if not (is_requestable_opt setup.work_tgt_mode)
      then (s, err (config_invalid key_work_tgt_mode))
      else elim (fov_out_of_range setup.fov) [
        | some bad ↦ (s, err (config_invalid bad))
        | none ↦ write_setup setup ip s
      ]
