-- ===== src/State/DriverStructs.antt =====
-- What the framework knows of the driver under test: the structures of gtf/test_state.h, one for
-- each bus and class. Their `int` flags are set to 0 and 1 only.
use driver_optimizer.Prelude.{ℕ}
use driver_optimizer.State.Enums.{CallState, not_called, DeviceState, device_state_undefined}

pub record PciDriverState : Type 0 where
  pub pci : ℕ
  pub registered : CallState
  pub unregistered : CallState
  pub enabled : DeviceState
  pub probed : CallState

pub record UsbDriverState : Type 0 where
  pub usb : ℕ
  pub registered : CallState
  pub unregistered : CallState
  pub probed : CallState

pub record MiscDriverState : Type 0 where
  pub misc : ℕ
  pub registered : CallState
  pub unregistered : CallState
  pub probed : CallState

pub record ProtoOpsState : Type 0 where
  pub proto_ops : ℕ
  pub registered : CallState
  pub unregistered : CallState
  pub probed : CallState

pub record I2cDriverState : Type 0 where
  pub i2c : ℕ
  pub registered : CallState
  pub unregistered : CallState
  pub probed : CallState

pub record PlatformDriverState : Type 0 where
  pub platform : ℕ
  pub registered : CallState
  pub unregistered : CallState
  pub probed : CallState

pub record SpiDriverState : Type 0 where
  pub spi : ℕ
  pub registered : CallState
  pub unregistered : CallState
  pub probed : CallState

pub record NdoDriverState : Type 0 where
  pub net : ℕ
  pub opened : CallState
  pub trans_start_check : ℕ
  pub register_netdev : CallState
  pub unregister_netdev : CallState
  pub capable : CallState
  pub napi_schedule : CallState
  pub netif_rx : CallState
  pub queue_state : ℕ

pub record SoundDriverState : Type 0 where
  pub sound : ℕ

-- The nine global variables of gtf/test_state.c.
pub record Drivers : Type 0 where
  pub pci_driver_state : PciDriverState
  pub usb_driver_state : UsbDriverState
  pub misc_driver_state : MiscDriverState
  pub proto_ops_state : ProtoOpsState
  pub i2c_driver_state : I2cDriverState
  pub platform_driver_state : PlatformDriverState
  pub spi_driver_state : SpiDriverState
  pub ndo_driver_state : NdoDriverState
  pub sound_driver_state : SoundDriverState

-- Each variable after `memset (.., 0, ..)`: the enumerators with value 0.
abbrev pub zeroed_drivers : Drivers
zeroed_drivers = record {
  pci_driver_state = record {
    pci = 0;
    registered = not_called;
    unregistered = not_called;
    enabled = device_state_undefined;
    probed = not_called;
  };
  usb_driver_state = record {
    usb = 0;
    registered = not_called;
    unregistered = not_called;
    probed = not_called;
  };
  misc_driver_state = record {
    misc = 0;
    registered = not_called;
    unregistered = not_called;
    probed = not_called;
  };
  proto_ops_state = record {
    proto_ops = 0;
    registered = not_called;
    unregistered = not_called;
    probed = not_called;
  };
  i2c_driver_state = record {
    i2c = 0;
    registered = not_called;
    unregistered = not_called;
    probed = not_called;
  };
  platform_driver_state = record {
    platform = 0;
    registered = not_called;
    unregistered = not_called;
    probed = not_called;
  };
  spi_driver_state = record {
    spi = 0;
    registered = not_called;
    unregistered = not_called;
    probed = not_called;
  };
  ndo_driver_state = record {
    net = 0;
    opened = not_called;
    trans_start_check = 0;
    register_netdev = not_called;
    unregister_netdev = not_called;
    capable = not_called;
    napi_schedule = not_called;
    netif_rx = not_called;
    queue_state = 0;
  };
  sound_driver_state = record { sound = 0 };
}
