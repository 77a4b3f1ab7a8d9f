-- ===== src/Info/Values.antt =====
-- Each decoder of a key's value reads nothing outside it, whatever its length.
use livox_mid360_core.Prelude.{
  ℕ, zero, suc, ◌+◌, ◌*◌, ◌≤◌, ◌≡◌, ◌==◌, not, List, length, Result, Safe, Safe-bind, fail_if, ◌>>◌,
  Bool-cases, inl, inr, ==_iff, arith, ◌>>=◌,
}
use livox_mid360_core.Bytes.{subspan, read_le}
use livox_mid360_core.Bytes.Laws.{subspan_ok, read_le_ok}
use livox_mid360_core.Protocol.Acks.NoFault.{Anything}
use livox_mid360_core.Keys.{KeyError, wrong_length}
use livox_mid360_core.Keys.Scalars.{
  decode_scalar, decode_i32, decode_i64, decode_bool, decode_data_type, decode_enum_u8,
  decode_work_state, decode_fov_enable, decode_diag_status,
}
use livox_mid360_core.Keys.Values.{
  decode_host_ip_config, decode_lidar_ip_config, decode_install_attitude, decode_fov_config,
  decode_func_io_config, decode_imu_sensor_config, decode_version, decode_mac, decode_hms_codes,
  read_codes,
}
use livox_mid360_core.Info.{decode_slots}

-- A decoder that reads nothing outside the value.
abbrev pub IsTotal : {A : Type 0} → (List ℕ → Result KeyError A) → Type 0
IsTotal f = (v : List ℕ) → Safe Anything (f v)

guarded :
    {A : Type 0} (n : ℕ) (v : List ℕ) (m : Result KeyError A)
    → (length v ≡ n → Safe Anything m)
    → Safe Anything (fail_if (not (length v == n)) wrong_length >> m)
guarded n v m h = elim (Bool-cases (length v == n)) [
  | inl e ↦ rw e (h ((==_iff (length v) n).0 e))
  | inr e ↦ rw e tt
]

after :
    {A B : Type 0} (m : Result KeyError A) (f : A → Result KeyError B)
    → Safe Anything m
    → ((a : A) → Safe Anything (f a))
    → Safe Anything (m >>= f)
after m f h k = Safe-bind Anything Anything m f h (λ a x. k a)

read_le-Safe :
    (w : ℕ) (v : List ℕ) (off : ℕ)
    → off + w ≤ length v
    → Safe Anything (read_le {E = KeyError} w v off)
read_le-Safe w v off h = rw (read_le_ok {E = KeyError} w v off h) tt

subspan-Safe :
    (v : List ℕ) (off n : ℕ) → off + n ≤ length v → Safe Anything (subspan {E = KeyError} v off n)
subspan-Safe v off n h = rw (subspan_ok {E = KeyError} v off n h) tt

pub decode_scalar-IsTotal : (w : ℕ) → IsTotal (decode_scalar w)
unfolding decode_scalar
decode_scalar-IsTotal w v = guarded w v _ (λ h. read_le-Safe w v 0 (omega arith))

-- A decoder of several fields, of a value as long as the key says.
multi :
    {A : Type 0} (n : ℕ) (v : List ℕ) (m : Result KeyError A)
    → (n ≤ length v → Safe Anything m)
    → Safe Anything (fail_if (not (length v == n)) wrong_length >> m)
multi n v m h = guarded n v m (λ e. h (omega arith))

pub decode_work_state-IsTotal : IsTotal decode_work_state
unfolding decode_work_state
decode_work_state-IsTotal v = after _ _ (decode_scalar-IsTotal 1 v) (λ u. ground arith)

pub decode_enum_u8-IsTotal : (most : ℕ) → IsTotal (λ v. decode_enum_u8 v most)
unfolding decode_enum_u8
decode_enum_u8-IsTotal most v = after _ _ (decode_scalar-IsTotal 1 v) (λ u. ground arith)

pub decode_bool-IsTotal : IsTotal decode_bool
unfolding decode_bool
decode_bool-IsTotal v = after _ _ (decode_enum_u8-IsTotal 1 v) (λ u. tt)

pub decode_data_type-IsTotal : IsTotal decode_data_type
unfolding decode_data_type
decode_data_type-IsTotal v = after _ _ (decode_enum_u8-IsTotal 3 v) (λ u. ground arith)

pub decode_i32-IsTotal : IsTotal decode_i32
unfolding decode_i32
decode_i32-IsTotal v = after _ _ (decode_scalar-IsTotal 4 v) (λ u. tt)

pub decode_i64-IsTotal : IsTotal decode_i64
unfolding decode_i64
decode_i64-IsTotal v = after _ _ (decode_scalar-IsTotal 8 v) (λ u. tt)

pub decode_fov_enable-IsTotal : IsTotal decode_fov_enable
unfolding decode_fov_enable
decode_fov_enable-IsTotal v = after _ _ (decode_scalar-IsTotal 1 v) (λ u. ground arith)

pub decode_diag_status-IsTotal : IsTotal decode_diag_status
unfolding decode_diag_status
decode_diag_status-IsTotal v = after _ _ (decode_scalar-IsTotal 2 v) (λ u. ground arith)

pub decode_host_ip_config-IsTotal : IsTotal decode_host_ip_config
unfolding decode_host_ip_config
decode_host_ip_config-IsTotal v = multi 8 v _ (λ h.
    after _ _ (subspan-Safe v 0 4 (omega arith)) (λ ip.
      after _ _ (read_le-Safe 2 v 4 (omega arith))
        (λ p. after _ _ (read_le-Safe 2 v 6 (omega arith)) (λ q. tt))))

pub decode_lidar_ip_config-IsTotal : IsTotal decode_lidar_ip_config
unfolding decode_lidar_ip_config
decode_lidar_ip_config-IsTotal v = multi 12 v _ (λ h.
    after _ _ (subspan-Safe v 0 4 (omega arith)) (λ ip.
      after _ _ (subspan-Safe v 4 4 (omega arith))
        (λ p. after _ _ (subspan-Safe v 8 4 (omega arith)) (λ q. tt))))

pub decode_install_attitude-IsTotal : IsTotal decode_install_attitude
unfolding decode_install_attitude
decode_install_attitude-IsTotal v = multi 24 v _ (λ h.
    after _ _ (read_le-Safe 4 v 0 (omega arith)) (λ a.
      after _ _ (read_le-Safe 4 v 4 (omega arith)) (λ b.
        after _ _ (read_le-Safe 4 v 8 (omega arith)) (λ c.
          after _ _ (read_le-Safe 4 v 12 (omega arith)) (λ d.
            after _ _ (read_le-Safe 4 v 16 (omega arith))
              (λ e. after _ _ (read_le-Safe 4 v 20 (omega arith)) (λ f. tt)))))))

pub decode_fov_config-IsTotal : IsTotal decode_fov_config
unfolding decode_fov_config
decode_fov_config-IsTotal v = multi 20 v _ (λ h. after _ _ (read_le-Safe 4 v 0 (omega arith)) (λ a.
    after _ _ (read_le-Safe 4 v 4 (omega arith)) (λ b.
      after _ _ (read_le-Safe 4 v 8 (omega arith)) (λ c.
        after _ _ (read_le-Safe 4 v 12 (omega arith))
          (λ d. after _ _ (read_le-Safe 4 v 16 (omega arith)) (λ e. tt))))))

pub decode_func_io_config-IsTotal : IsTotal decode_func_io_config
unfolding decode_func_io_config
decode_func_io_config-IsTotal v = multi 4 v _ (λ h.
    after _ _ (read_le-Safe 1 v 0 (omega arith)) (λ a.
      after _ _ (read_le-Safe 1 v 1 (omega arith)) (λ b.
        after _ _ (read_le-Safe 1 v 2 (omega arith))
          (λ c. after _ _ (read_le-Safe 1 v 3 (omega arith)) (λ d. ground arith)))))

pub decode_imu_sensor_config-IsTotal : IsTotal decode_imu_sensor_config
unfolding decode_imu_sensor_config
decode_imu_sensor_config-IsTotal v = multi 3 v _ (λ h.
    after _ _ (read_le-Safe 1 v 0 (omega arith)) (λ a.
      after _ _ (read_le-Safe 1 v 1 (omega arith))
        (λ b. after _ _ (read_le-Safe 1 v 2 (omega arith)) (λ c. ground arith))))

pub decode_version-IsTotal : IsTotal decode_version
unfolding decode_version
decode_version-IsTotal v = multi 4 v _ (λ h. subspan-Safe v 0 4 (omega arith))

pub decode_mac-IsTotal : IsTotal decode_mac
unfolding decode_mac
decode_mac-IsTotal v = multi 6 v _ (λ h. subspan-Safe v 0 6 (omega arith))

read_codes-Safe : (n i : ℕ) (v : List ℕ) → 4 * (i + n) ≤ length v → Safe Anything (read_codes n v i)
unfolding read_codes
read_codes-Safe zero i v h = tt
read_codes-Safe (suc n) i v h =
    after _ _ (read_le-Safe 4 v (4 * i) (omega arith))
      (λ c. after _ _ (read_codes-Safe n (i + 1) v (omega arith)) (λ cs. tt))

pub decode_slots-IsTotal : IsTotal decode_slots
unfolding decode_slots decode_hms_codes
decode_slots-IsTotal v =
    after _ _ (multi 32 v _ (λ h. read_codes-Safe 8 0 v (omega arith))) (λ cs. tt)
