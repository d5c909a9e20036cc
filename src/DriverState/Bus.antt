-- ===== src/DriverState/Bus.antt =====
-- The registry of buses and the class of gtf/test_state.c.
use driver_optimizer.Prelude.{ℕ, ◌≡◌, ◌≢◌, refl, Bool, arith, ◌==◌, if◌then◌else◌}
use driver_optimizer.Action.{ok, stop, assertion, ◌>>◌}
use driver_optimizer.State.{
  BusType, driver_unknown_bus, driver_pci, driver_usb, driver_misc, driver_proto_ops, driver_i2c,
  driver_platform, driver_spi, bus_bit, ClassType, class_is, driver_unknown_class, driver_net,
  driver_snd, Drivers,
}
use driver_optimizer.DriverState.{
  write_net, write_sound, write_pci, write_usb, write_misc, write_proto_ops, write_i2c,
  write_platform, write_spi, set_driver_bus, remove_driver_bus, get_driver_class, set_driver_class,
}

-- the flag of a bus
abbrev pub bus_flag : Drivers → BusType → ℕ
bus_flag d driver_unknown_bus = 0
bus_flag d driver_pci = d.pci_driver_state.pci
bus_flag d driver_usb = d.usb_driver_state.usb
bus_flag d driver_misc = d.misc_driver_state.misc
bus_flag d driver_proto_ops = d.proto_ops_state.proto_ops
bus_flag d driver_i2c = d.i2c_driver_state.i2c
bus_flag d driver_platform = d.platform_driver_state.platform
bus_flag d driver_spi = d.spi_driver_state.spi

-- the state with the flag of a bus written
abbrev pub write_flag : BusType → ℕ → Drivers → Drivers
write_flag driver_unknown_bus flag d = d
write_flag driver_pci flag d = write_pci flag d
write_flag driver_usb flag d = write_usb flag d
write_flag driver_misc flag d = write_misc flag d
write_flag driver_proto_ops flag d = write_proto_ops flag d
write_flag driver_i2c flag d = write_i2c flag d
write_flag driver_platform flag d = write_platform flag d
write_flag driver_spi flag d = write_spi flag d

abbrev pub bus_is : BusType → BusType → Bool
bus_is a b = bus_bit a == bus_bit b

-- A write changes the flag of its bus, and of no other.
pub bus_flag-write_flag :
    (d : Drivers) (type other : BusType) (flag : ℕ)
    → type ≢ driver_unknown_bus
    → bus_flag (write_flag type flag d) other
      ≡ (if bus_is type other then flag else bus_flag d other)
bus_flag-write_flag d driver_unknown_bus other flag known = absurd (known refl)
bus_flag-write_flag d _ other flag known = ground arith

set_driver_bus-write :
    (d : Drivers) (type : BusType)
    → type ≢ driver_unknown_bus
    → set_driver_bus type d
      ≡ (if bus_flag d type == 0 then ok (tt, write_flag type 1 d) else stop assertion)
unfolding set_driver_bus
set_driver_bus-write d driver_unknown_bus known = absurd (known refl)
set_driver_bus-write d _ known = ground arith

-- Registering a known bus returns if its flag is 0, and ends the path by an assertion otherwise.
-- Where it returns, the flag is 1, and that of every other bus is as before.
set_driver_bus_lem :
    (d : Drivers) (type other : BusType)
    → type ≢ driver_unknown_bus
    → (set_driver_bus type d
        ≡ (if bus_flag d type == 0 then ok (tt, write_flag type 1 d) else stop assertion))
      × (bus_flag (write_flag type 1 d) other ≡ (if bus_is type other then 1 else bus_flag d other))
set_driver_bus_lem d type other known =
    (set_driver_bus-write d type known, bus_flag-write_flag d type other 1 known)

-- Removing a bus undoes its registration: from a state where its flag is 0, both calls return and
-- the state is the one before.
remove-set_driver_bus :
    (d : Drivers) (type : BusType)
    → type ≢ driver_unknown_bus
    → bus_flag d type ≡ 0
    → (set_driver_bus type >> remove_driver_bus type) d ≡ ok (tt, d)
unfolding set_driver_bus remove_driver_bus
remove-set_driver_bus d driver_unknown_bus known e = absurd (known refl)
remove-set_driver_bus d _ known e = ground arith

-- the state with the flags of a class written
abbrev pub write_class : ClassType → Drivers → Drivers
write_class driver_unknown_class d = write_sound 0 (write_net 0 d)
write_class driver_net d = write_sound 0 (write_net 1 d)
write_class driver_snd d = write_sound 1 (write_net 0 d)

-- The class of a driver is set once: from a state whose class is read as `class`, setting a class
-- returns if `class` is the unknown class, and then the class that was set is read; otherwise it
-- ends the path by an assertion, also where the same class, or none, is set.
set_driver_class_lem :
    (d : Drivers) (class type : ClassType)
    → get_driver_class d ≡ ok (class, d)
    → (set_driver_class type d ≡ (
        if class_is class driver_unknown_class
        then ok (tt, write_class type d)
        else stop assertion))
      × (get_driver_class (write_class type d) ≡ ok (type, write_class type d))
unfolding set_driver_class
set_driver_class_lem d class driver_unknown_class e = (ground arith, ground arith)
set_driver_class_lem d class _ e = (ground arith, ground arith)
