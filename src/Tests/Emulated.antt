-- ===== src/Tests/Emulated.antt =====
-- Emulated devices on concrete inputs.
use driver_optimizer.Prelude.{
  ℕ, ◌≡◌, refl, pos, negsuc, false, List, [], ◌∷◌, none, some, replicate, arith, ◌-◌, if◌then◌else◌,
}
use driver_optimizer.Action.{ok, pure, ◌>>=◌}
use driver_optimizer.Emulation.{Emulation, Answers, PciCore, BoardInfo, Chip, KernelCall}
use driver_optimizer.Emulation.I2c.{initialize_i2c_device, free_i2c_device}
use driver_optimizer.Emulation.Clients.{devices, held, all_vacant}
use driver_optimizer.Emulation.Making.{all_named}
use driver_optimizer.Emulation.RoundTrip.{FindsDevice, free-initialize}
use driver_optimizer.Tests.{Objects, loaded}
use driver_optimizer.Startup.{Machine, Parameters, Given}
use driver_optimizer.FunctionTracker.{FunctionValue}
use driver_optimizer.Hashtable.Assoc.{assoc}
use driver_optimizer.Emulation.Smbus.{smbus_i2c_block_data, stub_xfer, has_chip}
use driver_optimizer.Emulation.Transfers.{SameFrom, stub_xfer_in_bounds}

-- a kernel that makes a client at 4096 the first time, and refuses then
abbrev second_refused : List KernelCall → BoardInfo → ℕ
second_refused (_ ∷ _ ∷ _ ∷ _ ∷ _) info = 0
second_refused _ info = 4096

abbrev kernel : Answers
kernel = record {
  kzalloc_result = λ _. 8192;
  enable_result = λ _ _. pos 0;
  adapter_result = λ _. pos 0;
  new_device_result = second_refused;
  register_platform_result = λ _. pos 0;
  alloc_master_result = λ _. 12288;
  master_get_result = λ _ m. m;
  bitbang_result = λ _. pos 0;
  new_spi_result = λ _. 16384;
  resource_start = λ _ _. 0;
  resource_end = λ _ _. 0;
  spi_name_size = 32;
  irq_of = λ _. 11;
  i2c_name_size = 20;
}

-- a PCI core with one device at 64
abbrev pci_core : PciCore
pci_core = record {
  register_driver = λ probe. probe 64 >>= λ _. pure (pos 0);
  unregister_driver = λ remove. remove 64;
}

abbrev finds_device : FindsDevice pci_core 64
finds_device = record { registers = λ probe s. refl; unregisters = λ remove s. refl }

abbrev chip_at : ℕ → Chip
chip_at addr = record {
  chip_addr = addr;
  name = some (97 ∷ []);
  board_info = record { type = []; addr = 0; irq = 0 };
  client = 0;
}

-- two chips are in use
abbrev two_chips : List Chip
two_chips = chip_at 16 ∷ chip_at 17 ∷ replicate 6 (chip_at 0)

abbrev powered : Emulation
powered = record {
  calls = [];
  pci_cur_device = 0;
  drvdata = 0;
  i2c_pdev = 0;
  chips = two_chips;
  platform_pdev = 0;
  tf_platform_resources = [];
  spi_private = none;
}

free-initialize_example :
    (chips : List Chip) × (calls : List KernelCall) × ((initialize_i2c_device kernel pci_core
            (pos 1)
            22
          >>= λ _. free_i2c_device kernel pci_core (pos 1))
        powered
      ≡ ok (
        tt,
        record powered {
          calls = calls;
          pci_cur_device = 0;
          drvdata = 0;
          i2c_pdev = 0;
          chips = chips;
        },
      ))
    × ((x : ℕ) → (devices calls x ≡ devices [] x) × (held chips x ≡ 0))
unfolding all_vacant all_named
free-initialize_example =
    free-initialize kernel pci_core 64 finds_device refl (λ _. refl) (λ _. refl) 22 (λ _. refl)
      powered refl refl refl refl refl refl

-- a block of three bytes is read
abbrev block : List ℕ
block = 3 ∷ replicate 33 0

abbrev fives : ℕ → ℕ
fives _ = 5

stub_xfer_in_bounds_example :
    (bytes' : List ℕ) × (stub_xfer fives false 22 19 false two_chips 17 smbus_i2c_block_data
        (some block)
      ≡ ok (if has_chip two_chips 17 then pos 0 else negsuc (19 - 1), some bytes'))
    × SameFrom (if has_chip two_chips 17 then 4 else 0) block bytes'
stub_xfer_in_bounds_example =
    stub_xfer_in_bounds fives block 3 (omega arith) refl (omega arith) 22 19 17 false false
      two_chips smbus_i2c_block_data refl

abbrev probe_name : List ℕ
probe_name = 112 ∷ []

-- a module that is loaded without an emulated bus
abbrev options : Parameters
options = record {
  g_sym_num_trackperf_fn = pos 1;
  g_sym_num_trackperf_fn_flags = pos 1;
  g_sym_trackperf_fn = some probe_name ∷ [];
  g_sym_trackperf_fn_flags = pos 1 ∷ [];
  g_sym_trackperf_irq = pos 1000;
  g_platform_enable = pos 0;
  g_platform_name = [];
  g_platform_nr = pos 0;
  g_platform_rflags = [];
  g_platform_rnames = replicate 6 none;
  g_i2c_enable = pos 0;
  g_spi_enable = pos 0;
  g_spi_name = [];
}

abbrev from_kernel : Given
from_kernel = record {
  lines = some [];
  call_stack_buffer1 = 4096;
  call_stack_buffer2 = 8192;
  control_result = pos 0;
  einval = 22;
  null_text = 6;
  answers = kernel;
  core = pci_core;
}

abbrev machine : Machine Objects (List (ℕ × FunctionValue))
machine = record {
  framework = loaded;
  functions = record { global_lock_acquired = 0; initialized = 0; objs = none };
  emulation = powered;
}
