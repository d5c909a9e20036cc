-- ===== src/Startup.antt =====
-- The start and the end of the framework, gtf/init_module.c, with initialize_enter_exit of
-- gtf/enter_exit.c. What the module's parameters are set to and what the kernel answers are arguments;
-- the calls that only tell S2E of a function are left out.
pub mod Started
use driver_optimizer.Prelude.{
  ℕ, ℤ, pos, negsuc, zero, suc, ◌+◌, ltb, length, none, some, ◌==◌, ◌==ℤ◌, ◌||◌, not, Bool, List,
  [], ◌∷◌, Option, if◌then◌else◌,
}
use driver_optimizer.Action.{
  Action, get, pure, halt, kernel_panic, out_of_bounds, zoom, ◌>>=◌, ◌>>◌,
}
use driver_optimizer.Hashtable.{Hashtable}
use driver_optimizer.State.{HValue}
use driver_optimizer.Framework.{Framework, on_irqs, on_ep_state, initialize_driver_state}
use driver_optimizer.Irq.{initialize_irqs, free_irqs}
use driver_optimizer.FunctionTracker.{
  FunctionValue, FunctionTracker, initialize_function_tracker, free_function_tracker,
}
use driver_optimizer.EntryPoints.{initialize_ep}
use driver_optimizer.Emulation.{Chip, Emulation, Answers, PciCore}
use driver_optimizer.Emulation.I2c.{initialize_i2c_device, free_i2c_device}
use driver_optimizer.Emulation.Platform.{
  pci_max_resources, iterations, initialize_platform_device, free_platform_device,
}
use driver_optimizer.Emulation.Spi.{initialize_spi_device, free_spi_device}

-- All that the framework keeps.
pub record Machine (T F : Type 0) : Type 0 where
  pub framework : Framework T
  pub functions : FunctionTracker F
  pub emulation : Emulation

-- The module's parameters that its start reads; the names of the I2C devices are in the chips. A string
-- that is not given is NULL. An array has as many elements as it is declared with.
pub record Parameters : Type 0 where
  pub g_sym_num_trackperf_fn : ℤ
  pub g_sym_num_trackperf_fn_flags : ℤ
  pub g_sym_trackperf_fn : List (Option (List ℕ))
  pub g_sym_trackperf_fn_flags : List ℤ
  pub g_sym_trackperf_irq : ℤ
  pub g_platform_enable : ℤ
  pub g_platform_name : List ℕ
  pub g_platform_nr : ℤ
  pub g_platform_rflags : List ℕ
  pub g_platform_rnames : List (Option (List ℕ))
  pub g_i2c_enable : ℤ
  pub g_spi_enable : ℤ
  pub g_spi_name : List ℕ

-- What the kernel gives: the table of interrupt lines, the two buffers for the call stack, the result
-- of misc_register, EINVAL, how many characters sprintf prints for a NULL string, and what the
-- emulated devices ask for.
pub record Given : Type 0 where
  pub lines : Option (List ℕ)
  pub call_stack_buffer1 : ℕ
  pub call_stack_buffer2 : ℕ
  pub control_result : ℤ
  pub einval : ℕ
  pub null_text : ℕ
  pub answers : Answers
  pub core : PciCore

-- SYMDRIVE_TRACKPERF_IRQ_NONE, _ONLY_CALLED and _ALL
abbrev pub is_trackperf_irq : ℤ → Bool
is_trackperf_irq z = z ==ℤ pos 1000 || z ==ℤ pos 1001 || z ==ℤ pos 1002

module _ {S : Type 0} where
  abbrev pub or_panic : Bool → Action S Unit
  or_panic b = if b then pure tt else halt kernel_panic

  -- The loop over the flags.
  unfoldable pub check_flags : ℕ → List ℤ → Action S Unit
  check_flags zero flags = pure tt
  check_flags (suc left) [] = halt out_of_bounds
  check_flags (suc left) (flag ∷ flags) = do
    or_panic (flag ==ℤ pos 0 || flag ==ℤ pos 1)
    check_flags left flags

  unfoldable pub initialize_enter_exit : Given → Action S Unit
  initialize_enter_exit given =
      or_panic (not (given.call_stack_buffer1 == 0 || given.call_stack_buffer2 == 0))

-- temp[16], buffer[4096] and MAX_CHIPS
abbrev pub temp_size : ℕ
temp_size = 16

abbrev pub dump_size : ℕ
dump_size = 4096

abbrev pub max_chips : ℕ
max_chips = 8

-- how many characters of a string are printed
abbrev pub shown : Given → Option (List ℕ) → ℕ
shown given none = given.null_text
shown given (some name) = length name

abbrev pub names_of : List Chip → List (Option (List ℕ))
names_of [] = []
names_of (chip ∷ chips) = chip.name ∷ names_of chips

module _ {S : Type 0} (given : Given) where
  -- A loop of dump_params over strings: each is printed with a space and a 0 into `temp`, which is
  -- appended to what `buffer` has so far. Neither is checked by the code.
  unfoldable pub dump_names : ℕ → ℕ → List (Option (List ℕ)) → Action S Unit
  dump_names so_far zero names = pure tt
  dump_names so_far (suc left) [] = halt out_of_bounds
  dump_names so_far (suc left) (name ∷ names) = do
    if ltb (shown given name + 1) temp_size then pure tt else halt out_of_bounds
    if ltb (so_far + (shown given name + 1)) dump_size then pure tt else halt out_of_bounds
    dump_names (so_far + (shown given name + 1)) left names

module _ {S : Type 0} where
  -- The loop of dump_params over the flags. An int has at most 11 characters, so it fits `temp`, and
  -- ten of them fit `buffer`.
  unfoldable pub dump_flags : ℕ → List ℤ → Action S Unit
  dump_flags zero flags = pure tt
  dump_flags (suc left) [] = halt out_of_bounds
  dump_flags (suc left) (flag ∷ flags) = dump_flags left flags

-- What is printed otherwise, among it six and eight numbers, fits.
unfoldable pub dump_params : {S : Type 0} → Parameters → Given → List Chip → Action S Unit
unfolding dump_names dump_flags
dump_params params given chips = do
  dump_names given 0 (iterations params.g_sym_num_trackperf_fn) params.g_sym_trackperf_fn
  dump_flags (iterations params.g_sym_num_trackperf_fn_flags) params.g_sym_trackperf_fn_flags
  dump_names given 0 pci_max_resources params.g_platform_rnames
  dump_names given 0 max_chips (names_of chips)

module _ {T F A : Type 0} where
  abbrev pub on_framework : Action (Framework T) A → Action (Machine T F) A
  on_framework = zoom (λ m. m.framework) (λ f m. record m { framework = f })

  abbrev pub on_functions : Action (FunctionTracker F) A → Action (Machine T F) A
  on_functions = zoom (λ m. m.functions) (λ f m. record m { functions = f })

  abbrev pub on_emulation : Action Emulation A → Action (Machine T F) A
  on_emulation = zoom (λ m. m.emulation) (λ e m. record m { emulation = e })

module _ {T F : Type 0} ⦃h : Hashtable T HValue⦄ ⦃hf : Hashtable F FunctionValue⦄
    (params : Parameters) (given : Given) where
  unfoldable pub init_common : Action (Machine T F) Unit
  unfolding initialize_function_tracker initialize_driver_state initialize_irqs
      initialize_enter_exit check_flags
  init_common = do
    on_functions initialize_function_tracker
    on_framework initialize_driver_state
    on_framework (on_irqs (initialize_irqs given.lines))
    initialize_enter_exit given
    or_panic (params.g_sym_num_trackperf_fn ==ℤ params.g_sym_num_trackperf_fn_flags)
    check_flags (iterations params.g_sym_num_trackperf_fn) params.g_sym_trackperf_fn_flags
    or_panic (is_trackperf_irq params.g_sym_trackperf_irq)

  unfoldable pub linux_init : Action (Machine T F) ℤ
  unfolding dump_params init_common initialize_ep initialize_platform_device initialize_i2c_device
      initialize_spi_device
  linux_init = do
    m ← get
    dump_params params given m.emulation.chips
    init_common
    on_framework (on_ep_state initialize_ep)
    or_panic (given.control_result ==ℤ pos 0)
    platform ← on_emulation (
        initialize_platform_device given.answers params.g_platform_rflags params.g_platform_rnames
          params.g_platform_name params.g_platform_nr given.core params.g_platform_enable)
    or_panic (platform ==ℤ pos 0)
    i2c ←
        on_emulation
          (initialize_i2c_device given.answers given.core params.g_i2c_enable given.einval)
    or_panic (i2c ==ℤ pos 0)
    spi ←
        on_emulation
          (initialize_spi_device given.answers given.core params.g_spi_name params.g_spi_enable)
    or_panic (spi ==ℤ pos 0)
    pure spi

  -- free_driver_state destroys the table of objects; free_enter_exit and free_global_lock have no
  -- state here.
  unfoldable pub linux_cleanup : Action (Machine T F) Unit
  unfolding free_spi_device free_i2c_device free_platform_device free_irqs free_function_tracker
  linux_cleanup = do
    on_emulation (free_spi_device given.answers given.core params.g_spi_enable)
    on_emulation (free_i2c_device given.answers given.core params.g_i2c_enable)
    on_emulation (free_platform_device given.answers given.core params.g_platform_enable)
    on_framework (on_irqs free_irqs)
    on_functions free_function_tracker
