-- ===== src/Device/Push/Latest.antt =====
-- The merged status holds the newest value that any push carried of each key.
use livox_mid360_core.Prelude.{ℕ, ◌≡◌, ◌∙◌, refl, sym, ap, List, [], ◌∷◌, Option, none, some}
use livox_mid360_core.Info.{LidarStatus}
use livox_mid360_core.Device.Push.{
  Pushed, nothing_pushed, keep, carry_over, merged, observe_status, observe_run,
}

-- The last value of a list of fields that is there, or else `last`.
abbrev pub last_given {ℓ} : {A : Type ℓ} → Option A → List (Option A) → Option A
last_given last [] = last
last_given last (none ∷ os) = last_given last os
last_given last (some v ∷ os) = last_given (some v) os

abbrev pub newest {ℓ} : {A : Type ℓ} → List (Option A) → Option A
newest os = last_given none os

keep_assoc {ℓ} : {A : Type ℓ} (a b c : Option A) → keep a (keep b c) ≡ keep (keep a b) c
keep_assoc none b c = refl
keep_assoc (some v) b c = refl

-- A field of a status, and that merging treats it as `keep`.
record IsField {ℓ} {A : Type ℓ} (field : LidarStatus → Option A) : Type ℓ where
  first : (time : ℕ) (s : LidarStatus) → field (merged time s none) ≡ field s
  later : (time : ℕ) (s p : LidarStatus) → field (merged time s (some p)) ≡ keep (field s) (field p)

abbrev pub field_of {ℓ} : {A : Type ℓ} → (LidarStatus → Option A) → Option LidarStatus → Option A
field_of field none = none
field_of field (some s) = field s

-- The field in each of a run of pushes.
abbrev pub fields {ℓ} :
    {A : Type ℓ} → (LidarStatus → Option A) → List (ℕ × LidarStatus) → List (Option A)
fields field [] = []
fields field ((time, s) ∷ ds) = field s ∷ fields field ds

keep-none_right {ℓ} : {A : Type ℓ} (o : Option A) → keep o none ≡ o
keep-none_right none = refl
keep-none_right (some v) = refl

last_given-keep {ℓ} :
    {A : Type ℓ} (last : Option A) (os : List (Option A))
    → last_given last os ≡ keep (newest os) last
last_given-keep last [] = refl
last_given-keep last (none ∷ os) = last_given-keep last os
last_given-keep last (some v ∷ os) =
    last_given-keep (some v) os
    ∙ keep_assoc (newest os) (some v) last
    ∙ sym (ap (λ o. keep o last) (last_given-keep (some v) os))

newest-cons {ℓ} :
    {A : Type ℓ} (o : Option A) (os : List (Option A)) → newest (o ∷ os) ≡ keep (newest os) o
newest-cons none os = sym (keep-none_right (newest os))
newest-cons (some v) os = last_given-keep (some v) os

module _ {ℓ} {A : Type ℓ} (field : LidarStatus → Option A) (f : IsField field) where
  field-merged :
      (time : ℕ) (s : LidarStatus) (o : Option LidarStatus)
      → field (merged time s o) ≡ keep (field s) (field_of field o)
  field-merged time s none = f.first time s ∙ sym (keep-none_right (field s))
  field-merged time s (some p) = f.later time s p

  field-observe_run :
      (ds : List (ℕ × LidarStatus)) (p : Pushed)
      → field_of field (observe_run ds p).0.status
        ≡ keep (newest (fields field ds)) (field_of field p.status)
  unfolding observe_run observe_status
  field-observe_run [] p = refl
  field-observe_run ((time, s) ∷ ds) p =
      field-observe_run ds (observe_status time s p).0
      ∙ ap (keep (newest (fields field ds))) (field-merged time s p.status)
      ∙ keep_assoc (newest (fields field ds)) (field s) (field_of field p.status)
      ∙ sym (ap (λ o. keep o (field_of field p.status)) (newest-cons (field s) (fields field ds)))

  field-nothing_pushed :
      (ds : List (ℕ × LidarStatus))
      → field_of field (observe_run ds nothing_pushed).0.status ≡ newest (fields field ds)
  field-nothing_pushed ds =
      field-observe_run ds nothing_pushed ∙ keep-none_right (newest (fields field ds))

-- Every field is the newest value that the pushes carried of it.
pub record IsLatest (ds : List (ℕ × LidarStatus)) (o : Option LidarStatus) : Type 0 where
  pub cur_work_state_latest :
      field_of (λ s. s.cur_work_state) o ≡ newest (fields (λ s. s.cur_work_state) ds)
  pub core_temp_latest : field_of (λ s. s.core_temp) o ≡ newest (fields (λ s. s.core_temp) ds)
  pub powerup_cnt_latest : field_of (λ s. s.powerup_cnt) o ≡ newest (fields (λ s. s.powerup_cnt) ds)
  pub local_time_now_latest :
      field_of (λ s. s.local_time_now) o ≡ newest (fields (λ s. s.local_time_now) ds)
  pub last_sync_time_latest :
      field_of (λ s. s.last_sync_time) o ≡ newest (fields (λ s. s.last_sync_time) ds)
  pub time_offset_latest : field_of (λ s. s.time_offset) o ≡ newest (fields (λ s. s.time_offset) ds)
  pub time_sync_type_latest :
      field_of (λ s. s.time_sync_type) o ≡ newest (fields (λ s. s.time_sync_type) ds)
  pub lidar_diag_status_latest :
      field_of (λ s. s.lidar_diag_status) o ≡ newest (fields (λ s. s.lidar_diag_status) ds)
  pub fw_type_latest : field_of (λ s. s.fw_type) o ≡ newest (fields (λ s. s.fw_type) ds)
  pub hms_code_latest : field_of (λ s. s.hms_code) o ≡ newest (fields (λ s. s.hms_code) ds)

-- After any run of pushes each of the ten fields of the status has the newest value that a push of the
-- run carried of it.
pub observe_run-IsLatest :
    (ds : List (ℕ × LidarStatus)) → IsLatest ds (observe_run ds nothing_pushed).0.status
unfolding merged carry_over
observe_run-IsLatest ds = record {
  cur_work_state_latest =
      field-nothing_pushed (λ s. s.cur_work_state)
        (record { first = λ t s. refl; later = λ t s p. refl }) ds;
  core_temp_latest =
      field-nothing_pushed (λ s. s.core_temp)
        (record { first = λ t s. refl; later = λ t s p. refl }) ds;
  powerup_cnt_latest =
      field-nothing_pushed (λ s. s.powerup_cnt)
        (record { first = λ t s. refl; later = λ t s p. refl }) ds;
  local_time_now_latest =
      field-nothing_pushed (λ s. s.local_time_now)
        (record { first = λ t s. refl; later = λ t s p. refl }) ds;
  last_sync_time_latest =
      field-nothing_pushed (λ s. s.last_sync_time)
        (record { first = λ t s. refl; later = λ t s p. refl }) ds;
  time_offset_latest =
      field-nothing_pushed (λ s. s.time_offset)
        (record { first = λ t s. refl; later = λ t s p. refl }) ds;
  time_sync_type_latest =
      field-nothing_pushed (λ s. s.time_sync_type)
        (record { first = λ t s. refl; later = λ t s p. refl }) ds;
  lidar_diag_status_latest =
      field-nothing_pushed (λ s. s.lidar_diag_status)
        (record { first = λ t s. refl; later = λ t s p. refl }) ds;
  fw_type_latest =
      field-nothing_pushed (λ s. s.fw_type) (record { first = λ t s. refl; later = λ t s p. refl })
        ds;
  hms_code_latest =
      field-nothing_pushed (λ s. s.hms_code) (record { first = λ t s. refl; later = λ t s p. refl })
        ds;
}
