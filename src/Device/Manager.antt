-- ===== src/Device/Manager.antt =====
-- `DeviceManager` of src/device/device.cpp. A device is told from another by its address, and a
-- callback by a number; an operation answers with the calls of callbacks that it makes, in order.
pub mod Registry
pub mod Lookup
mod Tests
use scicompute.Base.{
  ℕ, zero, suc, ◌+◌, ◌-◌, ◌%◌, ◌^◌, ◌<◌, ◌≡◌, Bool, true, false, not, ◌&&◌, ◌||◌, Option, some,
  none, List, [], ◌∷◌, ◌++◌, map, length, ltb, ◌==◌, if◌then◌else◌,
}
use scicompute.Base.Int.{ℤ, pos, negsuc}
use scicompute.Base.Assoc.{find, put, erase}

pub record Device : Type 0 where
  pub address : ℕ
  pub device_type : ℕ
  pub id : ℤ

pub data DeviceEvent : Type 0 where
  device_added : DeviceEvent
  device_removed : DeviceEvent
  device_error : DeviceEvent

-- A call of the callback `0` with an event and a device.
abbrev pub Notice : Type 0
Notice = ℕ × DeviceEvent × Device

abbrev pub cpu_type : ℕ
cpu_type = 0

abbrev pub cuda_type : ℕ
cuda_type = 1

pub record DeviceManager : Type 0 where
  pub next_device_id : ℕ
  pub next_callback_id : ℕ
  pub cpu_device : Device
  pub default_device : Option Device
  pub default_type : ℕ
  pub default_id : ℤ
  pub devices : List (ℕ × Device)
  pub callbacks : List ℕ

-- A `DeviceId` is a `uint32_t`.
abbrev pub next_id : ℕ → ℕ
next_id id = (id + 1) % 2 ^ 32

pub create : Device → DeviceManager
create cpu = record {
  next_device_id = next_id 1;
  next_callback_id = 1;
  cpu_device = cpu;
  default_device = some cpu;
  default_type = cpu_type;
  default_id = pos 0;
  devices = put 1 cpu [];
  callbacks = [];
}

pub notify_device_event : DeviceEvent → Device → DeviceManager → List Notice
notify_device_event event d m = map (λ c. (c, event, d)) m.callbacks

abbrev pub same_id : ℤ → ℤ → Bool
same_id (pos a) (pos b) = a == b
same_id (pos a) (negsuc b) = false
same_id (negsuc a) (pos b) = false
same_id (negsuc a) (negsuc b) = a == b

pub find_device : ℕ → ℤ → List (ℕ × Device) → Option Device
find_device ty id [] = none
find_device ty id (p ∷ ps) =
    let rest = find_device ty id ps in
    if p.1.device_type == ty && same_id p.1.id id then some p.1 else rest

-- The manager after `RegisterDevice` of a device that is not null.
pub registered : Device → DeviceManager → DeviceManager
registered d m = record m {
  next_device_id = next_id m.next_device_id;
  devices = put m.next_device_id d m.devices;
}

-- A null device is `none`.
pub register_device : Option Device → DeviceManager → List Notice × ℕ × DeviceManager
unfolding registered notify_device_event
register_device none m = ([], 0, m)
register_device (some d) m = (
  notify_device_event DeviceEvent.device_added d (registered d m),
  m.next_device_id,
  registered d m,
)

-- The default device after the device `d` is gone.
pub drop_default : Device → Option Device → DeviceManager → DeviceManager
drop_default d none m = m
drop_default d (some default) m =
    if default.address == d.address
    then record m {
      default_device = some m.cpu_device;
      default_type = cpu_type;
      default_id = pos 0;
    }
    else m

-- What `UnregisterDevice` does with what the map says of an id.
pub unregister_found : ℕ → Option Device → DeviceManager → List Notice × Bool × DeviceManager
unfolding drop_default notify_device_event
unregister_found id none m = ([], false, m)
unregister_found id (some d) m = if d.address == m.cpu_device.address then ([], false, m) else (
  notify_device_event DeviceEvent.device_removed d m,
  true,
  drop_default d m.default_device (record m { devices = erase id m.devices }),
)

pub unregister_device : ℕ → DeviceManager → List Notice × Bool × DeviceManager
unfolding unregister_found
unregister_device id m = unregister_found id (find id m.devices) m

pub num_devices : ℕ → List (ℕ × Device) → ℕ
num_devices ty [] = 0
num_devices ty (p ∷ ps) = (if p.1.device_type == ty then 1 else 0) + num_devices ty ps

-- The loop of `ScanDevices` over the devices that `CudaDevice::Create` gives before it fails.
pub register_all : List Device → DeviceManager → List Notice × DeviceManager
unfolding register_device
register_all [] m = ([], m)
register_all (d ∷ ds) m =
    let (calls, id, m') = register_device (some d) m in
    let rest = register_all ds m' in (calls ++ rest.0, rest.1)

-- `found` is empty in a build without CUDA.
pub scan_devices : List Device → DeviceManager → List Notice × DeviceManager
unfolding register_all num_devices
scan_devices found m =
    if num_devices cuda_type m.devices == 0 then register_all found m else ([], m)

pub look_again : ℕ → ℤ → List Notice × DeviceManager → List Notice × Option Device × DeviceManager
unfolding find_device
look_again ty id (calls, m) = (calls, find_device ty id m.devices, m)

-- The second look of `get_device`, after the scan, unless the first one finds a device.
pub or_scan :
    List Device
    → ℕ
    → ℤ
    → Option Device
    → DeviceManager
    → List Notice × Option Device × DeviceManager
unfolding scan_devices look_again
or_scan found ty id (some d) m = ([], some d, m)
or_scan found ty id none m = look_again ty id (scan_devices found m)

pub get_device : List Device → ℕ → ℤ → DeviceManager → List Notice × Option Device × DeviceManager
unfolding or_scan find_device
get_device found ty id m =
    if ty == cpu_type
    then ([], some m.cpu_device, m)
    else or_scan found ty id (find_device ty id m.devices) m

-- `default_type_` and `default_id_` are set before the device is looked up.
pub set_default_device : List Device → ℕ → ℤ → DeviceManager → List Notice × DeviceManager
unfolding get_device
set_default_device found ty id m =
    let (calls, d, m') = get_device found ty id (record m { default_type = ty; default_id = id }) in
    (calls, record m' { default_device = d })

pub add_callback : ℕ → DeviceManager → ℕ × DeviceManager
add_callback c m = (
  m.next_callback_id,
  record m { next_callback_id = next_id m.next_callback_id; callbacks = m.callbacks ++ c ∷ [] },
)

-- `vector::erase` at an index, which is undefined past the end.
pub erase_at : ℕ → List ℕ → Option (List ℕ)
erase_at i [] = none
erase_at zero (c ∷ cs) = some cs
erase_at (suc i) (c ∷ cs) = elim (erase_at i cs) [ none ↦ none | some ds ↦ some (c ∷ ds) ]

-- `none` is undefined behaviour.
pub remove_callback : ℕ → DeviceManager → Option (Bool × DeviceManager)
unfolding erase_at
remove_callback id m =
    if ltb 0 id && ltb id m.next_callback_id
    then elim (erase_at (id - 1) m.callbacks) [
      | none ↦ none
      | some cs ↦ some (true, record m { callbacks = cs })
    ]
    else some (false, m)

-- Managers after calls that have registered at most `n` devices beside the CPU's. Each call has
-- returned: callbacks neither throw nor call the manager, and `RemoveCallback` stays in bounds.
pub data Reach (cpu : Device) : ℕ → DeviceManager → Type 0 where
  start : Reach cpu 0 (create cpu)
  registers :
      {n : ℕ} {m : DeviceManager} (d : Device)
      → Reach cpu n m
      → Reach cpu (n + 1) (register_device (some d) m).2
  unregisters :
      {n : ℕ} {m : DeviceManager} (id : ℕ) → Reach cpu n m → Reach cpu n (unregister_device id m).2
  gets :
      {n : ℕ} {m : DeviceManager} (found : List Device) (ty : ℕ) (id : ℤ)
      → Reach cpu n m
      → Reach cpu (n + length found) (get_device found ty id m).2
  sets_default :
      {n : ℕ} {m : DeviceManager} (found : List Device) (ty : ℕ) (id : ℤ)
      → Reach cpu n m
      → Reach cpu (n + length found) (set_default_device found ty id m).1
  scans :
      {n : ℕ} {m : DeviceManager} (found : List Device)
      → Reach cpu n m
      → Reach cpu (n + length found) (scan_devices found m).1
  adds_callback :
      {n : ℕ} {m : DeviceManager} (c : ℕ) → Reach cpu n m → Reach cpu n (add_callback c m).1
  removes_callback :
      {n : ℕ} {m : DeviceManager} (id : ℕ) (b : Bool) (m' : DeviceManager)
      → Reach cpu n m
      → remove_callback id m ≡ some (b, m')
      → Reach cpu n m'
