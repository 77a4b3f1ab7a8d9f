-- ===== src/Tests/Values.antt =====
-- Key values, tags and the queue.
use livox_mid360_core.Prelude.{
  ℕ, ◌≤◌, ◌≡◌, ◌↔◌, refl, List, [], ◌∷◌, length, ok, fault, some, false, true, arith,
}
use livox_mid360_core.Prelude.Int.{pos, negsuc}
use livox_mid360_core.Protocol.Types.{ParseError}
use livox_mid360_core.Keys.{key_value_length, is_read_only, key_sn, key_mac}
use livox_mid360_core.Keys.Scalars.{FovEnable}
use livox_mid360_core.Keys.Values.{FovConfig, InstallAttitude, FuncIoConfig}
use livox_mid360_core.Queue.{BoundedQueue, empty_queue, push_item, close}
use livox_mid360_core.Queue.Newest.{push_all, pop_all, pop_all-push_all, push_item_fault}

serial_number_length : key_value_length key_sn ≡ some 16
unfolding key_value_length
serial_number_length = refl

mac_read_only : is_read_only key_mac ≡ true
unfolding is_read_only
mac_read_only = refl

abbrev window : FovConfig
window = record {
  yaw_start_deg = pos 10;
  yaw_stop_deg = pos 350;
  pitch_start_deg = negsuc 6;
  pitch_stop_deg = pos 52;
  rsvd = 0;
}

abbrev mounted : InstallAttitude
mounted = record {
  roll_deg = 0x40000000;
  pitch_deg = 0;
  yaw_deg = 0x42B40000;
  x_mm = negsuc 99;
  y_mm = pos 0;
  z_mm = pos 250;
}

abbrev pins : FuncIoConfig
pins = record { in0 = 0; in1 = 0; out0 = 2; out1 = 1 }

abbrev second_only : FovEnable
second_only = record { fov0 = false; fov1 = true }

abbrev numbers : List ℕ
numbers = 1 ∷ 2 ∷ 3 ∷ 4 ∷ []

pop_all-push_all_example :
    (q : BoundedQueue ℕ) × (push_all {E = ParseError} (empty_queue 3) numbers ≡ ok q)
    × (length q.items ≤ 3)
    × (q.dropped ≡ 1)
    × (push_item {E = ParseError} (close q) 9 ≡ ok (close q))
    × (pop_all 2 q ≡ 2 ∷ 3 ∷ [])
    × (pop_all 2 (close q) ≡ 2 ∷ 3 ∷ [])
pop_all-push_all_example = pop_all-push_all {E = ParseError} 3 2 numbers 9 (omega arith)

abbrev no_capacity : BoundedQueue ℕ
no_capacity = empty_queue 0

push_item_fault_example :
    (push_item {E = ParseError} no_capacity 7 ≡ fault)
    ↔ ((no_capacity.closed ≡ false) × (no_capacity.capacity ≡ 0) × (no_capacity.items ≡ []))
push_item_fault_example = push_item_fault {E = ParseError} no_capacity 7
