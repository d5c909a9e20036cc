-- ===== src/Emulation.antt =====
-- The devices that the framework emulates for a driver whose bus S2E does not have: what the files
-- gtf/bus_generic_pci.c, bus_i2c.c, bus_platform.c and bus_spi.c keep, and their calls of the kernel.
pub mod PciDevice
pub mod I2c
pub mod Clients
pub mod Making
pub mod RoundTrip
pub mod Smbus
pub mod Transfers
pub mod Platform
pub mod Messages
pub mod Spi
use driver_optimizer.Prelude.{ℕ, ℤ, List, ◌∷◌, Option}
use driver_optimizer.Action.{Action, get, put, ◌>>=◌}

-- linux/i2c.h: what a client is made of. `platform_data` is always the address of one static array.
pub record BoardInfo : Type 0 where
  pub type : List ℕ
  pub addr : ℕ
  pub irq : ℕ

-- Element i of the arrays g_i2c_chip_addr and g_i2c_names, which the module's parameters fill, and of
-- board_info and client of struct i2c_private: every loop reads the four at one index. A name that is
-- not given is NULL.
pub record Chip : Type 0 where
  pub chip_addr : ℕ
  pub name : Option (List ℕ)
  pub board_info : BoardInfo
  pub client : ℕ

-- linux/ioport.h: a resource of a platform device. A name that is not given is NULL.
pub record Resource : Type 0 where
  pub start : ℕ
  pub end : ℕ
  pub name : Option (List ℕ)
  pub flags : ℕ

-- The calls that the kernel has seen, in the order in which they were made.
pub data KernelCall : Type 0 where
  pci_enable_device pci_disable_device : ℕ → KernelCall
  kzalloc kfree : ℕ → KernelCall
  i2c_add_adapter i2c_del_adapter : KernelCall
  i2c_new_device : BoardInfo → ℕ → KernelCall
  i2c_unregister_device : ℕ → KernelCall
  platform_device_register : List Resource → KernelCall
  platform_device_unregister : KernelCall
  spi_bitbang_start spi_bitbang_stop : ℕ → KernelCall
  spi_master_get spi_master_put : ℕ → KernelCall
  spi_new_device : ℕ → List ℕ → ℕ → KernelCall

-- struct symspi_private: the PCI device and the master.
pub record SpiPrivate : Type 0 where
  pub pdev : ℕ
  pub master : ℕ

-- `platform_pdev` and `tf_platform_resources` are fields of platform_private; `spi_private` is none
-- where the pointer is NULL, or points to memory that is freed.
-- `drvdata` is the pointer that pci_set_drvdata keeps in the device. `i2c_pdev` is i2c_private.pdev.
-- `calls` has the last call first.
pub record Emulation : Type 0 where
  pub calls : List KernelCall
  pub pci_cur_device : ℕ
  pub drvdata : ℕ
  pub i2c_pdev : ℕ
  pub chips : List Chip
  pub platform_pdev : ℕ
  pub tf_platform_resources : List Resource
  pub spi_private : Option SpiPrivate

-- What the kernel answers, which may depend on all the calls before.
pub record Answers : Type 0 where
  pub kzalloc_result : List KernelCall → ℕ
  pub enable_result : List KernelCall → ℕ → ℤ
  pub adapter_result : List KernelCall → ℤ
  pub new_device_result : List KernelCall → BoardInfo → ℕ
  pub register_platform_result : List KernelCall → ℤ
  pub alloc_master_result : List KernelCall → ℕ
  pub master_get_result : List KernelCall → ℕ → ℕ
  pub bitbang_result : List KernelCall → ℤ
  pub new_spi_result : List KernelCall → ℕ
  -- pci_resource_start and pci_resource_end of a device
  pub resource_start : ℕ → ℕ → ℕ
  pub resource_end : ℕ → ℕ → ℕ
  -- the size of the field `modalias` of an SPI device
  pub spi_name_size : ℕ
  -- the interrupt line of a PCI device, and I2C_NAME_SIZE
  pub irq_of : ℕ → ℕ
  pub i2c_name_size : ℕ

abbrev pub call : KernelCall → Action Emulation Unit
call c = do e ← get; put (record e { calls = c ∷ e.calls })

-- pci_register_driver and pci_unregister_driver of the kernel: the result of the first is returned
-- after the driver's probe has been called for the device that S2E emulates, if there is one; the
-- second has the driver's remove called for it.
pub record PciCore : Type 0 where
  pub register_driver : (ℕ → Action Emulation ℤ) → Action Emulation ℤ
  pub unregister_driver : (ℕ → Action Emulation Unit) → Action Emulation Unit
