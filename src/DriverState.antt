-- ===== src/DriverState.antt =====
-- What the framework knows of the driver: the functions of gtf/test_state.c on its bus, its class
-- and the states of its calls and devices. A pointer argument is the state of the action, which a
-- caller runs on the field that it points to.
pub mod Bus
pub mod Calls
use driver_optimizer.Prelude.{
  ℕ, ◌+◌, ◌≤◌, Bool, true, false, not, ◌||◌, ◌==◌, if◌then◌else◌, bit_or,
}
use driver_optimizer.Action.{Action, ◌>>=◌, ◌>>◌, pure, get, put, modify, tfassert}
use driver_optimizer.State.{
  CallState, not_called, in_progress, called_ok, called_failed, DeviceState, device_state_undefined,
  device_state_disabled, device_state_enabled, BusType, driver_unknown_bus, driver_pci, driver_usb,
  driver_misc, driver_proto_ops, driver_i2c, driver_platform, driver_spi, bus_bit, ClassType,
  driver_unknown_class, driver_net, driver_snd, class_is, call_is, device_is, Drivers,
}

-- if (flag != 0) { total |= bit; }
abbrev add_bus : ℕ → BusType → ℕ → ℕ
add_bus flag type total = if flag == 0 then total else bit_or total (bus_bit type)

-- The buses in use, or-ed together. The test that the sum of the flags is not negative holds.
unfoldable pub get_driver_bus : Drivers → ℕ
get_driver_bus d = add_bus d.spi_driver_state.spi driver_spi (
    add_bus d.platform_driver_state.platform driver_platform (
      add_bus d.i2c_driver_state.i2c driver_i2c (
        add_bus d.proto_ops_state.proto_ops driver_proto_ops (
          add_bus d.misc_driver_state.misc driver_misc (
            add_bus d.usb_driver_state.usb driver_usb
              (add_bus d.pci_driver_state.pci driver_pci 0))))))

-- Writes of the seven flags, `pci_driver_state.pci = flag` and so on.
abbrev pub write_pci : ℕ → Drivers → Drivers
write_pci flag d = record d { pci_driver_state = record d.pci_driver_state { pci = flag } }

abbrev pub write_usb : ℕ → Drivers → Drivers
write_usb flag d = record d { usb_driver_state = record d.usb_driver_state { usb = flag } }

abbrev pub write_misc : ℕ → Drivers → Drivers
write_misc flag d = record d { misc_driver_state = record d.misc_driver_state { misc = flag } }

abbrev pub write_proto_ops : ℕ → Drivers → Drivers
write_proto_ops flag d = record d {
  proto_ops_state = record d.proto_ops_state { proto_ops = flag };
}

abbrev pub write_i2c : ℕ → Drivers → Drivers
write_i2c flag d = record d { i2c_driver_state = record d.i2c_driver_state { i2c = flag } }

abbrev pub write_platform : ℕ → Drivers → Drivers
write_platform flag d = record d {
  platform_driver_state = record d.platform_driver_state { platform = flag };
}

abbrev pub write_spi : ℕ → Drivers → Drivers
write_spi flag d = record d { spi_driver_state = record d.spi_driver_state { spi = flag } }

unfoldable pub init_driver_bus : Action Drivers Unit
init_driver_bus = do
  modify (write_pci 0)
  modify (write_usb 0)
  modify (write_misc 0)
  modify (write_proto_ops 0)
  modify (write_i2c 0)
  modify (write_platform 0)
  modify (write_spi 0)

unfoldable pub set_driver_bus : BusType → Action Drivers Unit
set_driver_bus driver_unknown_bus = tfassert false
set_driver_bus driver_pci = do d ← get; tfassert (d.pci_driver_state.pci == 0); modify (write_pci 1)
set_driver_bus driver_usb = do d ← get; tfassert (d.usb_driver_state.usb == 0); modify (write_usb 1)
set_driver_bus driver_misc = do
  d ← get
  tfassert (d.misc_driver_state.misc == 0)
  modify (write_misc 1)
set_driver_bus driver_proto_ops = do
  d ← get
  tfassert (d.proto_ops_state.proto_ops == 0)
  modify (write_proto_ops 1)
set_driver_bus driver_i2c = do d ← get; tfassert (d.i2c_driver_state.i2c == 0); modify (write_i2c 1)
set_driver_bus driver_platform = do
  d ← get
  tfassert (d.platform_driver_state.platform == 0)
  modify (write_platform 1)
set_driver_bus driver_spi = do d ← get; tfassert (d.spi_driver_state.spi == 0); modify (write_spi 1)

unfoldable pub remove_driver_bus : BusType → Action Drivers Unit
remove_driver_bus driver_unknown_bus = tfassert false
remove_driver_bus driver_pci = do
  d ← get
  tfassert (d.pci_driver_state.pci == 1)
  modify (write_pci 0)
remove_driver_bus driver_usb = do
  d ← get
  tfassert (d.usb_driver_state.usb == 1)
  modify (write_usb 0)
remove_driver_bus driver_misc = do
  d ← get
  tfassert (d.misc_driver_state.misc == 1)
  modify (write_misc 0)
remove_driver_bus driver_proto_ops = do
  d ← get
  tfassert (d.proto_ops_state.proto_ops == 1)
  modify (write_proto_ops 0)
remove_driver_bus driver_i2c = do
  d ← get
  tfassert (d.i2c_driver_state.i2c == 1)
  modify (write_i2c 0)
remove_driver_bus driver_platform = do
  d ← get
  tfassert (d.platform_driver_state.platform == 1)
  modify (write_platform 0)
remove_driver_bus driver_spi = do
  d ← get
  tfassert (d.spi_driver_state.spi == 1)
  modify (write_spi 0)

abbrev pub write_net : ℕ → Drivers → Drivers
write_net flag d = record d { ndo_driver_state = record d.ndo_driver_state { net = flag } }

abbrev pub write_sound : ℕ → Drivers → Drivers
write_sound flag d = record d { sound_driver_state = record d.sound_driver_state { sound = flag } }

unfoldable pub get_driver_class : Action Drivers ClassType
get_driver_class = do
  d ← get
  let total = d.ndo_driver_state.net + d.sound_driver_state.sound
  tfassert (total == 0 || total == 1)
  if not (d.ndo_driver_state.net == 0)
      then pure driver_net
      else if not (d.sound_driver_state.sound == 0)
      then pure driver_snd
      else pure driver_unknown_class

abbrev class_flags : ClassType → Action Drivers Unit
class_flags driver_unknown_class = pure tt
class_flags driver_net = modify (write_net 1)
class_flags driver_snd = modify (write_sound 1)

unfoldable pub set_driver_class : ClassType → Action Drivers Unit
unfolding get_driver_class
set_driver_class type = do
  existing_class ← get_driver_class
  tfassert (class_is existing_class driver_unknown_class)
  modify (write_net 0)
  modify (write_sound 0)
  class_flags type

-- the switch on the current state
abbrev device_may_become : DeviceState → DeviceState → Bool
device_may_become device_state_undefined new_state = true
device_may_become device_state_disabled new_state = device_is new_state device_state_enabled
device_may_become device_state_enabled new_state = device_is new_state device_state_disabled

unfoldable pub set_device_state : DeviceState → Action DeviceState Unit
set_device_state new_state = do
  cur_state ← get
  tfassert (device_may_become cur_state new_state)
  put new_state

unfoldable pub set_call_state : CallState → Action CallState Unit
set_call_state new_state = do
  state ← get
  if call_is new_state in_progress
      then tfassert
          (call_is state not_called || call_is state called_ok || call_is state called_failed)
      else pure tt
  if call_is new_state called_ok || call_is new_state called_failed
      then tfassert (call_is state in_progress)
      else pure tt
  put new_state
