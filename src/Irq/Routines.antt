-- ===== src/Irq/Routines.antt =====
-- The check routines of gtf/misc_checks/irq.c, each with the lock of the framework around it.
use driver_optimizer.Prelude.{ℕ, List, ℤ}
use driver_optimizer.Action.{Action}
use driver_optimizer.Framework.{Framework, on_irqs, check_routine}
use driver_optimizer.Irq.{request_threaded_irq, free_irq, enable_irq, disable_interrupt}
use driver_optimizer.Irq.Handlers.{interrupt_handler}

module _ {T : Type 0} where
  unfoldable pub request_threaded_irq_check :
      ℤ → ℕ → ℕ → ℕ → ℕ → List ℕ → ℕ → Action (Framework T) Unit
  unfolding check_routine request_threaded_irq
  request_threaded_irq_check prepost retval irq handler flags dev_name dev_id =
      check_routine
        (on_irqs (request_threaded_irq prepost retval irq handler flags dev_name dev_id))

  unfoldable pub free_irq_check : ℤ → ℕ → ℕ → Action (Framework T) Unit
  unfolding check_routine free_irq
  free_irq_check prepost irq dev_id = check_routine (on_irqs (free_irq prepost irq dev_id))

  unfoldable pub enable_irq_check : ℤ → ℕ → Action (Framework T) Unit
  unfolding check_routine enable_irq
  enable_irq_check prepost irq = check_routine (on_irqs (enable_irq prepost irq))

  -- disable_irq and disable_irq_nosync
  unfoldable pub disable_irq_check : ℤ → ℕ → Action (Framework T) Unit
  unfolding check_routine disable_interrupt
  disable_irq_check prepost irq = check_routine (on_irqs (disable_interrupt prepost irq))

  unfoldable pub interrupt_handler_check : ℤ → ℤ → Action (Framework T) Unit
  unfolding check_routine interrupt_handler
  interrupt_handler_check g_sym_force_receive prepost =
      check_routine (interrupt_handler g_sym_force_receive prepost)
