-- ===== src/Keys/Checks.antt =====
-- src/keys.cpp: the checks of network addresses and of angles.
use livox_mid360_core.Prelude.{
  ℕ, ◌+◌, ◌-◌, ◌*◌, ◌%◌, ◌^◌, ◌==◌, ◌||◌, ◌&&◌, leb, not, Bool, false, true, List, [], ◌∷◌,
  if◌then◌else◌, bit_and, bit_or,
}
use livox_mid360_core.Keys.Values.{LidarIpConfig, InstallAttitude}

-- `u32`: the bytes of an address, the first one highest.
abbrev pub word_of : ℕ → List ℕ → ℕ
word_of w [] = w
word_of w (b ∷ bs) = word_of (w * 256 + b) bs

unfoldable pub mask_valid : ℕ → Bool
mask_valid mask =
    let host = 2 ^ 32 - 1 - mask in
    not (
      mask == 0 || host == 0 || not (bit_and host ((host + 1) % 2 ^ 32) == 0) || mask == 0xFFFFFFFE)

unfoldable pub lidar_ip_config_valid : LidarIpConfig → Bool
unfolding mask_valid
lidar_ip_config_valid c =
    let ip = word_of 0 c.ip in
    let mask = word_of 0 c.netmask in
    let gw = word_of 0 c.gateway in
    let net = bit_and ip mask in
    let last = bit_or net (2 ^ 32 - 1 - mask) in
    if not (mask_valid mask)
    then false
    else if ip == 0 || ip == 0xFFFFFFFF || ip == net || ip == last
    then false
    else if not (gw == 0) && (not (bit_and gw mask == net) || gw == ip || gw == net || gw == last)
    then false
    else true

-- `isfinite(deg) && deg >= -180 && deg <= 180`, on the bits of an IEEE 754 `float`: the order of
-- magnitudes is that of the bits without the sign, and 0x43340000 is 180.
abbrev pub angle_valid : ℕ → Bool
angle_valid deg = leb (deg % 2 ^ 31) 0x43340000

unfoldable pub install_attitude_valid : InstallAttitude → Bool
install_attitude_valid a =
    angle_valid a.roll_deg && angle_valid a.pitch_deg && angle_valid a.yaw_deg
