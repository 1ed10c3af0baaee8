-- ===== src/Bus/Routing.antt =====
-- `Bus` of src/device/bus.rs: how it is built, and how a request finds its device.
use usbvfiod.Prelude.{
  ℕ, ◌+◌, ◌-◌, ◌%◌, ltb, if◌then◌else◌, Option, none, some, List, [], ◌∷◌, ◌++◌, M,
}
use usbvfiod.Interval.{Range, contains_interval, overlaps}
use usbvfiod.Bus.Request.{Request, u64_mod, checked_add, try_into_range}
use usbvfiod.Bus.Device.{Device, DefaultDevice, default_device}

pub record DeviceEntry (S : Type 0) : Type 0 where
  pub range : Range
  pub device : Device S

pub record Bus (S : Type 0) : Type 0 where
  pub devices : List (DeviceEntry S)
  pub error_device : DefaultDevice
  pub default : Device S

pub data AddBusDeviceError : Type 0 where
  overlaps_existing_device : (existing_range added_range : Range) → AddBusDeviceError
  device_out_of_range : (bus_size : ℕ) (added_range : Range) → AddBusDeviceError

-- `Ok` holds the changed bus; on `Err` the bus stays as it was.
pub data AddResult (A : Type 0) : Type 0 where
  ok : A → AddResult A
  err : AddBusDeviceError → AddResult A

module _ {S : Type 0} where
  -- `Bus::new_with_default`
  unfoldable pub new_with_default : Device S → Bus S
  new_with_default d = record { devices = []; error_device = record { size = d.size }; default = d }

  -- `Bus::new`, without its name.
  unfoldable pub new : ℕ → Bus S
  unfolding new_with_default
  new size = new_with_default (default_device (record { size = size }))

  -- `<Bus as BusDevice>::size`
  abbrev pub bus_size : Bus S → ℕ
  bus_size b = b.default.size

  -- `devices.iter().find(|e| e.range.overlaps(&range))`
  unfoldable pub find_overlap : List (DeviceEntry S) → Range → Option (DeviceEntry S)
  find_overlap [] range = none
  find_overlap (e ∷ es) range = if overlaps e.range range then some e else find_overlap es range

  push_or_reject : Bus S → Range → Device S → Option (DeviceEntry S) → AddResult (Bus S)
  push_or_reject b range device (some overlap) = err (overlaps_existing_device overlap.range range)
  push_or_reject b range device none =
      ok (record b { devices = b.devices ++ record { range = range; device = device } ∷ [] })

  add_ending : Bus S → ℕ → Device S → Option ℕ → AddResult (Bus S)
  unfolding push_or_reject
  add_ending b start_addr device none = err (
      device_out_of_range (bus_size b)
        (record { start = start_addr; end = (start_addr + device.size) % u64_mod }))
  add_ending b start_addr device (some end) =
      let range : Range = record { start = start_addr; end = end } in
      if ltb (bus_size b) end
      then err (device_out_of_range (bus_size b) range)
      else push_or_reject b range device (find_overlap b.devices range)

  -- `Bus::add`
  unfoldable pub add : Bus S → ℕ → Device S → AddResult (Bus S)
  unfolding add_ending
  add b start_addr device = add_ending b start_addr device (checked_add start_addr device.size)

  -- The loop of `Bus::to_device_request` over the entries.
  unfoldable pub claim :
      List (DeviceEntry S) → DefaultDevice → Request → Range → Option (Request × Device S)
  claim [] error_device req req_range = none
  claim (e ∷ es) error_device req req_range =
      if contains_interval e.range req_range
      then some (record req { addr = req.addr - e.range.start }, e.device)
      else if overlaps e.range req_range
      then some (req, default_device error_device)
      else claim es error_device req req_range

  claim_range : Bus S → Request → Option Range → Option (Request × Device S)
  claim_range b req none = none
  claim_range b req (some req_range) = claim b.devices b.error_device req req_range

  -- `Bus::to_device_request`
  unfoldable pub to_device_request : Bus S → Request → Option (Request × Device S)
  unfolding claim_range
  to_device_request b req = claim_range b req (try_into_range req)

  -- `<Bus as BusDevice>::read`
  unfoldable pub read : Bus S → Request → M S ℕ
  read b req = elim (to_device_request b req) [
    | some (rel_req, device) ↦ device.read rel_req
    | none ↦ b.default.read req
  ]

  -- `<Bus as BusDevice>::write`
  unfoldable pub write : Bus S → Request → ℕ → M S (Unit {0})
  write b req value = elim (to_device_request b req) [
    | some (rel_req, device) ↦ device.write rel_req value
    | none ↦ b.default.write req value
  ]
