-- ===== src/State/Enums.antt =====
-- The enumerations of gtf/test_state.h, with equality tests where the code compares.
use driver_optimizer.Prelude.{ℕ, Bool, true, false}

-- enum symdrive_call_state
pub data CallState : Type 0 where
  not_called in_progress called_ok called_failed : CallState

-- enum symdrive_device_state
pub data DeviceState : Type 0 where
  device_state_undefined device_state_disabled device_state_enabled : DeviceState

-- enum symdrive_blocking_context
pub data BlockingContext : Type 0 where
  blocking_undefined blocking_yes blocking_no : BlockingContext

-- enum symdrive_user_context
pub data UserContext : Type 0 where
  user_undefined user_yes user_no : UserContext

-- enum symdrive_driver_bus_type, the values that are passed as arguments
pub data BusType : Type 0 where
  driver_unknown_bus driver_pci driver_usb driver_misc driver_proto_ops : BusType
  driver_i2c driver_platform driver_spi : BusType

-- the numbers of enum symdrive_driver_bus_type, which get_driver_bus adds up
abbrev pub bus_bit : BusType → ℕ
bus_bit driver_unknown_bus = 0
bus_bit driver_pci = 1
bus_bit driver_usb = 2
bus_bit driver_misc = 4
bus_bit driver_proto_ops = 8
bus_bit driver_i2c = 16
bus_bit driver_platform = 32
bus_bit driver_spi = 64

-- enum symdrive_driver_class_type
pub data ClassType : Type 0 where
  driver_unknown_class driver_net driver_snd : ClassType

-- enum symdrive_LOCK_TYPE; NUM_LOCK_TYPES is the number of them
pub data LockType : Type 0 where
  lock_undefined spin_lock spin_lock_bh spin_lock_irqsave spin_lock_irq : LockType
  mutex rwsem rwlock generic_lock : LockType

abbrev pub num_lock_types : ℕ
num_lock_types = 9

-- the position of a lock type in `lock_state`
abbrev pub lock_index : LockType → ℕ
lock_index lock_undefined = 0
lock_index spin_lock = 1
lock_index spin_lock_bh = 2
lock_index spin_lock_irqsave = 3
lock_index spin_lock_irq = 4
lock_index mutex = 5
lock_index rwsem = 6
lock_index rwlock = 7
lock_index generic_lock = 8

-- enum symdrive_OBJECT_ORIGIN: its values are or-ed together, so an origin is a number
abbrev pub origin_kmalloc : ℕ
origin_kmalloc = 1

abbrev pub origin_vmalloc : ℕ
origin_vmalloc = 2

abbrev pub origin_get_free_pages : ℕ
origin_get_free_pages = 4

abbrev pub origin_dma_alloc_coherent : ℕ
origin_dma_alloc_coherent = 8

abbrev pub origin_pci_map_single : ℕ
origin_pci_map_single = 32

abbrev pub origin_pci_map_page : ℕ
origin_pci_map_page = 64

abbrev pub origin_skb_dma_map : ℕ
origin_skb_dma_map = 128

abbrev pub origin_alloc_etherdev_mqs : ℕ
origin_alloc_etherdev_mqs = 256

abbrev pub origin_alloc_urb : ℕ
origin_alloc_urb = 512

abbrev pub origin_device_register : ℕ
origin_device_register = 1024

abbrev pub origin_get_device : ℕ
origin_get_device = 2048

abbrev pub origin_spin_lock : ℕ
origin_spin_lock = 4096

abbrev pub origin_mutex : ℕ
origin_mutex = 8192

abbrev pub origin_rwsem : ℕ
origin_rwsem = 16384

abbrev pub origin_rwlock : ℕ
origin_rwlock = 32768

abbrev pub origin_ioremap : ℕ
origin_ioremap = 65536

abbrev pub origin_dev_alloc_skb : ℕ
origin_dev_alloc_skb = 131072

abbrev pub origin_class_create : ℕ
origin_class_create = 262144

abbrev pub origin_devicefile_create : ℕ
origin_devicefile_create = 524288

-- `==` of C on the enumerations
abbrev pub call_is : CallState → CallState → Bool
call_is not_called not_called = true
call_is in_progress in_progress = true
call_is called_ok called_ok = true
call_is called_failed called_failed = true
call_is _ _ = false

abbrev pub device_is : DeviceState → DeviceState → Bool
device_is device_state_undefined device_state_undefined = true
device_is device_state_disabled device_state_disabled = true
device_is device_state_enabled device_state_enabled = true
device_is _ _ = false

abbrev pub class_is : ClassType → ClassType → Bool
class_is driver_unknown_class driver_unknown_class = true
class_is driver_net driver_net = true
class_is driver_snd driver_snd = true
class_is _ _ = false

-- BLOCKING_YES or BLOCKING_UNDEFINED, the test before what may sleep
abbrev pub may_block : BlockingContext → Bool
may_block blocking_undefined = true
may_block blocking_yes = true
may_block blocking_no = false

-- BLOCKING_NO or BLOCKING_UNDEFINED
abbrev pub may_be_atomic : BlockingContext → Bool
may_be_atomic blocking_undefined = true
may_be_atomic blocking_yes = false
may_be_atomic blocking_no = true
