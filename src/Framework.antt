-- ===== src/Framework.antt =====
-- The state of the whole framework, made of the parts that its files keep, and the start and end of
-- a check routine (gtf/test_state.h).
pub mod Locked
pub mod Lifts
use driver_optimizer.Prelude.{ℕ, ℤ, Option, List}
use driver_optimizer.Action.{Action, ◌>>=◌, ◌>>◌, pure, put, zoom}
use driver_optimizer.Hashtable.{Hashtable}
use driver_optimizer.State.{
  HValue, GlobalState, Drivers, zeroed_drivers, blocking_undefined, user_undefined,
  driver_unknown_class, max_nesting,
}
use driver_optimizer.Prelude.{replicate}
use driver_optimizer.KernelState.{set_blocking_state, set_user_state}
use driver_optimizer.DriverState.{set_driver_class, init_driver_bus}
use driver_optimizer.EntryPoints.{EpState}
use driver_optimizer.Capable.{CapableState}
use driver_optimizer.GlobalLock.{acquire_global_lock, release_global_lock}

-- struct irq_struct of gtf/misc_checks/irq.c, with LINUX_MODE. Pointers are addresses; `name` holds
-- the bytes up to the terminating 0.
pub record IrqStruct : Type 0 where
  pub allocated : ℕ
  pub number : ℕ
  pub handler : ℕ
  pub parameter : ℕ
  pub flags : ℕ
  pub name : List ℕ
  pub enabled : ℕ

-- The static variables of irq.c: `sym_irq_lines` is NULL before the table is allocated, and
-- `called_before` is local to interrupt_handler_MJRcheck. `sym_num_requests` is decremented only
-- after a test that it is positive.
pub record IrqState : Type 0 where
  pub sym_irq : List IrqStruct
  pub sym_num_requests : ℕ
  pub sym_irq_ongoing : ℕ
  pub sym_irq_lines : Option (List ℕ)
  pub called_before : ℕ

-- `g_sym_kill_carrier_off` of gtf/init_module.c, a module parameter that a check routine clears, and
-- `called_before` of netif_carrier_off_MJRcheck.
pub record CarrierState : Type 0 where
  pub g_sym_kill_carrier_off : ℤ
  pub carrier_off_called : ℕ

-- The static variables of gtf/enter_exit.c, with `first_time_in_driver` of gen_enter_driver and the
-- module parameter `g_sym_retval`, which handle_max_coverage sets. A NULL string is `none`.
pub record EnterExit : Type 0 where
  pub bad_path : ℕ
  pub driver_call_stack : ℤ
  pub driver_call_stack_str : List (Option (List ℕ))
  pub g_symdrive_annotations : ℤ
  pub g_sym_retval : ℤ
  pub first_time_in_driver : ℕ

pub record Framework (T : Type 0) : Type 0 where
  pub global_lock_acquired : ℕ
  pub global_state : GlobalState T
  pub drivers : Drivers
  pub irqs : IrqState
  pub ep_state : EpState
  pub capable_state : CapableState
  pub carrier : CarrierState
  pub enter_exit : EnterExit

module _ {T A : Type 0} where
  abbrev pub on_lock : Action ℕ A → Action (Framework T) A
  on_lock = zoom (λ f. f.global_lock_acquired) (λ n f. record f { global_lock_acquired = n })

  abbrev pub on_global_state : Action (GlobalState T) A → Action (Framework T) A
  on_global_state = zoom (λ f. f.global_state) (λ g f. record f { global_state = g })

  abbrev pub on_drivers : Action Drivers A → Action (Framework T) A
  on_drivers = zoom (λ f. f.drivers) (λ d f. record f { drivers = d })

  abbrev pub on_ep_state : Action EpState A → Action (Framework T) A
  on_ep_state = zoom (λ f. f.ep_state) (λ e f. record f { ep_state = e })

  abbrev pub on_irqs : Action IrqState A → Action (Framework T) A
  on_irqs = zoom (λ f. f.irqs) (λ r f. record f { irqs = r })

  abbrev pub on_capable_state : Action CapableState A → Action (Framework T) A
  on_capable_state = zoom (λ f. f.capable_state) (λ c f. record f { capable_state = c })

  abbrev pub on_enter_exit : Action EnterExit A → Action (Framework T) A
  on_enter_exit = zoom (λ f. f.enter_exit) (λ e f. record f { enter_exit = e })

module _ {T : Type 0} where
  abbrev pub check_routine_start : Action (Framework T) Unit
  check_routine_start = on_lock acquire_global_lock

  abbrev pub check_routine_end : Action (Framework T) Unit
  check_routine_end = on_lock release_global_lock

  -- a check routine around its body
  unfoldable pub check_routine : Action (Framework T) Unit → Action (Framework T) Unit
  unfolding acquire_global_lock release_global_lock
  check_routine body = check_routine_start >> (body >> check_routine_end)

  -- a check routine that returns a value other than 0, or writes through one of its pointers
  unfoldable pub check_routine_with : {A : Type 0} → Action (Framework T) A → Action (Framework T) A
  unfolding acquire_global_lock release_global_lock
  check_routine_with body =
      check_routine_start >> (body >>= λ value. check_routine_end >> pure value)

module _ {T : Type 0} ⦃h : Hashtable T HValue⦄ where
  -- `memset` makes the enumerators with value 0, which are the undefined contexts
  abbrev pub zeroed_global_state : T → GlobalState T
  zeroed_global_state objs = record {
    blocking_context = replicate max_nesting blocking_undefined;
    blocking_context_current = 0;
    user_context = replicate max_nesting user_undefined;
    user_context_current = 0;
    device_irq_disabled = 0;
    objs = objs;
    objs_dirty = 0;
  }

  unfoldable pub initialize_driver_state : Action (Framework T) Unit
  unfolding set_driver_class init_driver_bus set_blocking_state set_user_state
  initialize_driver_state = do
    on_global_state (put (zeroed_global_state h.create))
    on_drivers (set_driver_class driver_unknown_class)
    on_drivers init_driver_bus
    on_drivers (put zeroed_drivers)
    on_global_state (set_blocking_state blocking_undefined)
    on_global_state (set_user_state user_undefined)
