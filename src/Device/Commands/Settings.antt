-- ===== src/Device/Commands/Settings.antt =====
-- The loop of `Device::settings`, which drops a key that the LiDAR does not know and asks again.
use livox_mid360_core.Prelude.{
  ℕ, zero, suc, ◌<◌, ◌≡◌, refl, ◌==◌, Bool, true, false, if◌then◌else◌, List, [], ◌∷◌, length,
  Option, none, some, ok, err, fault, arith,
}
use livox_mid360_core.Info.{LidarSettings, settings_keys}
use livox_mid360_core.Session.Types.{InquireResult}
use livox_mid360_core.Device.Commands.{
  CommandOptions, CommandEnv, Device, DeviceCall, inquire, unknown_key, erase_key, without, judge,
  settings_from, settings,
}

-- Each key that is dropped makes the list shorter.
abbrev Shorter : List ℕ → Option (List ℕ) → Type 0
Shorter keys none = Unit {0}
Shorter keys (some fewer) = length fewer < length keys

with_head-Shorter :
    (x : ℕ) (xs : List ℕ) (o : Option (List ℕ))
    → Shorter xs o
    → Shorter (x ∷ xs) (elim o [ none ↦ none | some ys ↦ some (x ∷ ys) ])
with_head-Shorter x xs none h = tt
with_head-Shorter x xs (some ys) h = omega (arith, h)

erase_key-Shorter : (k : ℕ) (keys : List ℕ) → Shorter keys (erase_key k keys)
unfolding erase_key
erase_key-Shorter k [] = tt
erase_key-Shorter k (x ∷ xs) =
    let found : length xs < length (x ∷ xs) = omega arith in
    pick (x == k) (some xs) _ found (with_head-Shorter x xs _ (erase_key-Shorter k xs))
  where
    pick :
        (b : Bool) (t e : Option (List ℕ))
        → Shorter (x ∷ xs) t
        → Shorter (x ∷ xs) e
        → Shorter (x ∷ xs) (if b then t else e)
    pick true t e h h' = h
    pick false t e h h' = h'

without-Shorter : (k : Option ℕ) (keys : List ℕ) → Shorter keys (without k keys)
without-Shorter none keys = tt
without-Shorter (some k) keys = erase_key-Shorter k keys

judge_ends :
    (keys : List ℕ) (r : DeviceCall InquireResult)
    (again : Device → List ℕ → Option (DeviceCall LidarSettings))
    → ((d : Device) (fewer : List ℕ)
        → length fewer < length keys
        → (x : DeviceCall LidarSettings) × (again d fewer ≡ some x))
    → (x : DeviceCall LidarSettings) × (judge keys r again ≡ some x)
unfolding judge
judge_ends keys (d, ok r) again h = (_, refl)
judge_ends keys (d, fault) again h = (_, refl)
judge_ends keys (d, err e) again h =
    go (without (unknown_key e) keys) (without-Shorter (unknown_key e) keys)
  where
    go :
        (o : Option (List ℕ))
        → Shorter keys o
        → (x : DeviceCall LidarSettings) × ((elim o [
          | none ↦ some (d, err e)
          | some fewer ↦ again d fewer
        ])
            ≡ some x)
    go none s = (_, refl)
    go (some fewer) s = h d fewer s

module _ (options : CommandOptions) (envs : ℕ → CommandEnv) where
  settings_from_ends :
      (n round : ℕ) (keys : List ℕ) (d : Device)
      → length keys < n
      → (x : DeviceCall LidarSettings) × (settings_from options envs n round keys d ≡ some x)
  unfolding settings_from
  settings_from_ends zero round keys d h = ground (arith, h)
  settings_from_ends (suc n) round keys d h =
      judge_ends keys (inquire options (envs round) d keys) _
        (λ d fewer less. settings_from_ends n (suc round) fewer d (omega (arith, less, h)))

  -- Reading the settings ends, whatever the LiDAR answers: with at most one inquiry more than there are
  -- keys to ask for.
  pub settings_ends :
      (d : Device) → (x : DeviceCall LidarSettings) × (settings options envs d ≡ some x)
  unfolding settings
  settings_ends d = settings_from_ends (suc (length settings_keys)) 0 settings_keys d (omega arith)
