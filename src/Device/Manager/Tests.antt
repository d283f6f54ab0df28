-- ===== src/Device/Manager/Tests.antt =====
-- `DeviceManager` at concrete inputs.
use scicompute.Base.{ℕ, ◌≤◌, ◌≡◌, ◌⊎◌, true, refl, some, none, [], ◌∷◌, arith}
use scicompute.Base.Int.{pos, negsuc}
use scicompute.Base.Assoc.{find, put, erase}
use scicompute.Base.Fallible.{◌>>=◌}
use scicompute.Device.Manager.{
  Device, DeviceManager, create, unregister_device, set_default_device, add_callback,
  remove_callback, Reach, start, sets_default, adds_callback,
}
use scicompute.Device.Manager.Lookup.{default_registered}

abbrev cpu : Device
cpu = record { address = 100; device_type = 0; id = negsuc 0 }

abbrev gpu : Device
gpu = record { address = 200; device_type = 1; id = pos 0 }

abbrev with_gpu : DeviceManager
with_gpu = (set_default_device (gpu ∷ []) 1 (pos 0) (add_callback 7 (create cpu)).1).1

with_gpu-Reach : Reach cpu 1 with_gpu
with_gpu-Reach = sets_default (gpu ∷ []) 1 (pos 0) (adds_callback 7 start)

-- The GPU is found by the scan, becomes the default, and gives way to the CPU when it goes.
gpu_comes_and_goes :
    (with_gpu.default_device ≡ some gpu)
    × ((unregister_device 2 with_gpu).2.default_device ≡ some cpu)
unfolding set_default_device add_callback create find put erase unregister_device
gpu_comes_and_goes = (refl, refl)

default_registered_example :
    (find 1 with_gpu.devices ≡ some cpu)
    × ((id : ℕ) → with_gpu.next_device_id ≤ id → find id with_gpu.devices ≡ none)
    × ((with_gpu.default_device ≡ none)
        ⊎ ((with_gpu.default_device ≡ some cpu)
            ⊎ ((id : ℕ) × (v : Device) × (with_gpu.default_device ≡ some v)
                × (find id with_gpu.devices ≡ some v))))
default_registered_example = default_registered cpu 1 with_gpu with_gpu-Reach (omega arith)

-- The callbacks 7, 8 and 9 have the ids 1, 2 and 3.
abbrev watched : DeviceManager
watched = (add_callback 9 (add_callback 8 (add_callback 7 (create cpu)).1).1).1

-- After the removal of id 1, the removal of id 2 takes the callback 9 in place of 8, and the removal
-- of id 3 goes past the end.
removals :
    ((remove_callback 1 watched >>= λ r. remove_callback 2 r.1)
      ≡ some (true, record watched { callbacks = 8 ∷ [] }))
    × ((remove_callback 1 watched >>= λ r. remove_callback 3 r.1) ≡ none)
unfolding remove_callback add_callback create
removals = (refl, refl)
