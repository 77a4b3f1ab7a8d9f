-- ===== src/Tests/Contexts.antt =====
-- The registry of devices and the receive thread, on two devices.
use livox_mid360_core.Prelude.{ℕ, ◌+◌, ◌%◌, ◌^◌, ◌≡◌, refl, List, [], ◌∷◌, ◌++◌, some, true}
use livox_mid360_core.Transport.{Datagram, same_bytes}
use livox_mid360_core.Context
use livox_mid360_core.Context.{
  Context, new_context, Step, adds, binds, receives, refreshes, rekeys, run, find, devices, create,
  DataPort, point, push, begin_remove, remove_done, refresh, on_batch,
}
use livox_mid360_core.Context.Distinct.{IsRegistry, routes}
use livox_mid360_core.Context.Registry.{run-new_context}
use livox_mid360_core.Context.Removal.{calls_of, removed-NotCalled, remove_done-refresh}
use livox_mid360_core.Context.Routing.{calls_for, strangers, on_batch-calls_for}

abbrev ip : ℕ → List ℕ
ip n = 192 ∷ 168 ∷ 1 ∷ n ∷ []

abbrev serial : ℕ → List ℕ
serial n = 51 ∷ 74 ∷ n ∷ []

abbrev from_host : ℕ → Datagram
from_host n = record { bytes = n ∷ []; from = record { ip = ip n; port = 56300 } }

-- The third device has the address of the first.
abbrev two_devices : List Step
two_devices =
    adds (ip 100) (serial 65) 1
    ∷ binds 1 7
    ∷ adds (ip 101) (serial 66) 2
    ∷ refreshes
    ∷ adds (ip 100) (serial 67) 3
    ∷ receives point (from_host 100 ∷ from_host 101 ∷ [])
    ∷ rekeys 2 (ip 102)
    ∷ []

abbrev registry : Context
registry = run two_devices new_context

registry_routes : routes registry.entries ≡ (ip 100, 1) ∷ (ip 102, 2) ∷ []
unfolding run Context.step Context.add Context.rekey Context.has_ip Context.has_serial same_bytes
    Context.bind_entries Context.find_receiver Context.move_entry refresh on_batch Context.find_ip
registry_routes = refl

bound : find (serial 65) registry.entries ≡ some 7
unfolding run Context.step Context.add Context.rekey Context.has_ip Context.has_serial same_bytes
    Context.bind_entries Context.find_receiver Context.move_entry refresh on_batch find
    Context.find_ip
bound = refl

run-new_context_example : IsRegistry (run two_devices new_context)
run-new_context_example = run-new_context two_devices

abbrev a_batch : List Step
a_batch = receives push (from_host 100 ∷ from_host 102 ∷ from_host 9 ∷ []) ∷ []

removal_done :
    remove_done (begin_remove 1 registry).1 (run a_batch (begin_remove 1 registry).0) ≡ true
unfolding run Context.step Context.add Context.rekey Context.has_ip Context.has_serial same_bytes
    Context.bind_entries Context.find_receiver Context.move_entry refresh on_batch begin_remove
    Context.find_ip Context.erase_receiver
removal_done = refl

removed-NotCalled_example :
    calls_of 1 (run a_batch (run a_batch (begin_remove 1 registry).0)).calls
    ≡ calls_of 1 (run a_batch (begin_remove 1 registry).0).calls
removed-NotCalled_example =
    removed-NotCalled 1 registry a_batch a_batch (run-new_context two_devices) tt tt removal_done

abbrev comes_and_goes : List Step
comes_and_goes = adds (ip 103) (serial 68) 4 ∷ a_batch

remove_done-refresh_example :
    remove_done
      (begin_remove 1 registry).1
      (refresh (run comes_and_goes (begin_remove 1 registry).0))
    ≡ true
remove_done-refresh_example =
    remove_done-refresh 1 registry comes_and_goes (run-new_context two_devices) (refl, tt)

abbrev batch : List Datagram
batch = from_host 102 ∷ from_host 9 ∷ from_host 100 ∷ []

on_batch-calls_for_example :
    ((on_batch push batch registry).calls
      ≡ registry.calls ++ calls_for (routes registry.entries) push batch)
    × ((on_batch push batch registry).stats.unknown_source % 2 ^ 64
        ≡ (registry.stats.unknown_source + strangers (routes registry.entries) batch) % 2 ^ 64)
on_batch-calls_for_example = on_batch-calls_for push batch registry (run-new_context two_devices)
