-- ===== src/Device/Log/Gaps.antt =====
-- The gaps that are reported are the jumps inside one file.
use livox_mid360_core.Prelude.{
  ℕ, ◌+◌, ◌%◌, ◌^◌, ◌≡◌, ◌==◌, ◌&&◌, ◌||◌, not, refl, ap₂, ◌∙◌, Bool, true, false, if◌then◌else◌,
  List, [], ◌∷◌, ◌++◌, arith,
}
use livox_mid360_core.FirmwareLog.{FirmwareLogPushHeader, file_begin, file_end}
use livox_mid360_core.Event.{Event, firmware_log_gap}
use livox_mid360_core.Device.Log.{LogTrack, no_file, track_push, track_run}

-- One push continues the file of another: same file, no begin, and that one was no end.
abbrev pub continues : FirmwareLogPushHeader → FirmwareLogPushHeader → Bool
continues a b = not (file_end a.flags) && not (file_begin b.flags) && (a.file_index == b.file_index)

abbrev pub follows : FirmwareLogPushHeader → FirmwareLogPushHeader → Bool
follows a b = b.trans_index == (a.trans_index + 1) % 2 ^ 32

-- The jump between two pushes, if there is one.
abbrev pub jump : ℕ → FirmwareLogPushHeader → FirmwareLogPushHeader → List Event
jump time a b =
    if continues a b && not (follows a b)
    then firmware_log_gap b.file_index ((a.trans_index + 1) % 2 ^ 32) b.trans_index time ∷ []
    else []

-- The jumps between neighbours of a run, after a push.
abbrev pub jumps : FirmwareLogPushHeader → List (ℕ × FirmwareLogPushHeader) → List Event
jumps a [] = []
jumps a ((time, b) ∷ hs) = jump time a b ++ jumps b hs

-- The track after a push, whatever it was before.
abbrev pub track_of : FirmwareLogPushHeader → LogTrack
track_of h = record {
  active = not (file_end h.flags);
  file_index = h.file_index;
  last_trans = h.trans_index;
}

track_push-jump :
    (time : ℕ) (a b : FirmwareLogPushHeader) → (track_push time (track_of a) b).1 ≡ jump time a b
unfolding track_push
track_push-jump time a b = ground arith

track_run-jumps :
    (a : FirmwareLogPushHeader) (hs : List (ℕ × FirmwareLogPushHeader))
    → (track_run hs (track_of a)).1 ≡ jumps a hs
unfolding track_run track_push
track_run-jumps a [] = refl
track_run-jumps a ((time, b) ∷ hs) =
    ap₂ (λ (x y : List Event). x ++ y) (track_push-jump time a b) (track_run-jumps b hs)

-- From the first push of a type on, the gap events are exactly the jumps between neighbouring pushes of
-- one file, each with the index that was expected, modulo 2^32, and the one that came; the first push
-- raises none.
pub track_run-gaps :
    (time : ℕ) (h : FirmwareLogPushHeader) (hs : List (ℕ × FirmwareLogPushHeader))
    → (track_run ((time, h) ∷ hs) no_file).1 ≡ jumps h hs
unfolding track_run track_push
track_run-gaps time h hs = first (file_begin h.flags) ∙ track_run-jumps h hs
  where
    first :
        (b : Bool)
        → (if b || true || not (0 == h.file_index)
              then []
              else if h.trans_index == 1
              then []
              else firmware_log_gap h.file_index 1 h.trans_index time ∷ [])
            ++ (track_run hs (track_of h)).1
          ≡ (track_run hs (track_of h)).1
    first true = refl
    first false = refl
