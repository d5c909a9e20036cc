-- ===== src/Tests.antt =====
-- Concrete states and runs.
mod Contexts
mod Tracking
mod Locking
mod Interrupts
mod Functions
mod PciDriver
mod Wrappers
mod Emulated
use driver_optimizer.Prelude.{
  zero, suc, Bool, ◌%◌, ◌/◌, ◌==◌, none, ℕ, List, [], replicate, leb, pos, length-replicate, ◌∷◌,
  arith,
}
use driver_optimizer.State.{
  not_called, zeroed_drivers, HValue, GlobalState, Kernel, max_nesting, num_lock_types,
  blocking_undefined, user_undefined,
}
use driver_optimizer.Framework.{Framework}
use driver_optimizer.EntryPoints.{started_arrays}
use driver_optimizer.KernelState.Stack.{IsNested}

abbrev pub Objects : Type 0
Objects = List (ℕ × HValue)

-- the state after the start
abbrev pub start : GlobalState Objects
start = record {
  blocking_context = replicate max_nesting blocking_undefined;
  blocking_context_current = 0;
  user_context = replicate max_nesting user_undefined;
  user_context_current = 0;
  device_irq_disabled = 0;
  objs = [];
  objs_dirty = 0;
}

pub start-IsNested : IsNested start
start-IsNested = record {
  blocking_length = length-replicate max_nesting blocking_undefined;
  blocking_inside = omega arith;
  user_length = length-replicate max_nesting user_undefined;
  user_inside = omega arith;
}

-- whether a bit of a word is 1
abbrev bit_set : ℕ → ℕ → Bool
bit_set zero w = w % 2 == 1
bit_set (suc n) w = bit_set n (w / 2)

-- the headers of a 32-bit kernel
instance abbrev pub linux : Kernel
linux = record {
  is_err = leb 4294963201;
  eperm = 1;
  enxio = 6;
  enodev = 19;
  einval = 22;
  gfp_atomic = 32;
  gfp_kernel = 208;
  cap_net_admin = pos 12;
  siocgmiireg = pos 35144;
  siocsmiireg = pos 35145;
  siocdevprivate_2 = pos 35314;
  siocsifaddr = pos 35094;
  queue_state_xoff = 0;
  test_bit = bit_set;
}

-- "init"
abbrev pub caller : List ℕ
caller = 105 ∷ 110 ∷ 105 ∷ 116 ∷ []

-- an object of 8 bytes with the given origin and states
abbrev pub object_value : ℕ → List ℕ → HValue
object_value origin lock_state = record {
  origin_str = [];
  origin = origin;
  size = 8;
  new_object = 1;
  lock_state = lock_state;
}

abbrev pub lock_address : ℕ
lock_address = 49152

-- the state with one object at `lock_address`
abbrev pub with_object : HValue → GlobalState Objects
with_object value = record start { objs = (lock_address, value) ∷ [] }

-- the framework after its start
abbrev pub loaded : Framework Objects
loaded = record {
  global_lock_acquired = 0;
  global_state = start;
  drivers = zeroed_drivers;
  irqs = record {
    sym_irq = [];
    sym_num_requests = 0;
    sym_irq_ongoing = 0;
    sym_irq_lines = none;
    called_before = 0;
  };
  ep_state = started_arrays;
  capable_state = record { ioctl_capable_param = pos 0; ioctl_capable_retval = not_called };
  carrier = record { g_sym_kill_carrier_off = pos 0; carrier_off_called = 0 };
  enter_exit = record {
    bad_path = 0;
    driver_call_stack = pos 0;
    driver_call_stack_str = replicate 32 none;
    g_symdrive_annotations = pos 0;
    g_sym_retval = pos 0;
    first_time_in_driver = 1;
  };
}
