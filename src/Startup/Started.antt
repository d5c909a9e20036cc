-- ===== src/Startup/Started.antt =====
-- What holds of the framework when its module is loaded, gtf/init_module.c.
use driver_optimizer.Prelude.{
  Option, ℕ, ℤ, ◌≡◌, pos, zero, suc, ◌≤◌, leb, ◌==ℤ◌, ◌&&◌, ◌||◌, Bool, true, false, List, [], ◌∷◌,
  some, replicate,
}
use driver_optimizer.Hashtable.{Hashtable}
use driver_optimizer.State.{HValue, GlobalState, zeroed_drivers}
use driver_optimizer.Framework.{Framework, IrqState, zeroed_global_state}
use driver_optimizer.Irq.{reset_one, max_irqs, max_irq_lines}
use driver_optimizer.FunctionTracker.{FunctionValue}
use driver_optimizer.Emulation.{Chip}
use driver_optimizer.Emulation.Platform.{pci_max_resources, iterations}
use driver_optimizer.Startup.{Machine, Parameters, Given, max_chips, shown, names_of}

-- there are as many flags, and each is 0 or 1
abbrev pub valid_flags : ℕ → List ℤ → Bool
valid_flags zero flags = true
valid_flags (suc left) [] = false
valid_flags (suc left) (flag ∷ flags) = (flag ==ℤ pos 0 || flag ==ℤ pos 1) && valid_flags left flags

module _ (given : Given) where
  -- the strings that are printed are there, and have at most 14 characters
  abbrev pub short_names : ℕ → List (Option (List ℕ)) → Bool
  short_names zero names = true
  short_names (suc left) [] = false
  short_names (suc left) (name ∷ names) = leb (shown given name) 14 && short_names left names

module _ (params : Parameters) (given : Given) (chips : List Chip) where
  -- the module's parameters are as dump_params prints them without an overrun
  pub record IsPrintable : Type 0 where
    pub few : iterations params.g_sym_num_trackperf_fn ≤ 10
    pub functions :
        short_names given (iterations params.g_sym_num_trackperf_fn) params.g_sym_trackperf_fn
        ≡ true
    pub resources : short_names given pci_max_resources params.g_platform_rnames ≡ true
    pub devices : short_names given max_chips (names_of chips) ≡ true

-- the interrupts after the start
abbrev fresh_irqs : IrqState → IrqState
fresh_irqs s = record s {
  sym_irq = replicate max_irqs reset_one;
  sym_irq_ongoing = 0;
  sym_irq_lines = some (replicate max_irq_lines 0);
  sym_num_requests = 0;
}

module _ {T : Type 0} ⦃h : Hashtable T HValue⦄ where
  abbrev fresh : GlobalState T
  fresh = zeroed_global_state h.create

module _ {T F : Type 0} ⦃h : Hashtable T HValue⦄ ⦃hf : Hashtable F FunctionValue⦄
    (params : Parameters) (given : Given) (m : Machine T F) (table : List ℕ) where
  abbrev loaded_machine : Machine T F
  loaded_machine = record m {
    framework = record m.framework {
      global_state = fresh;
      drivers = zeroed_drivers;
      irqs = fresh_irqs m.framework.irqs;
    };
    functions = record m.functions { objs = some hf.create; initialized = 1 };
  }
