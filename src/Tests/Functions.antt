-- ===== src/Tests/Functions.antt =====
-- The function tracker and the test cases on concrete inputs.
use driver_optimizer.Prelude.{◌≡◌, ◌≢◌, refl, ℕ, List, [], ◌∷◌, some, pos, length, arith}
use driver_optimizer.Action.{Action, ok, stop, null_dereference, pure, halt, test_complete, ◌>>◌}
use driver_optimizer.FunctionTracker.{
  FunctionTracker, FunctionValue, function_value, gen_register_one, gen_convert_fn, gen_lookup,
}
use driver_optimizer.FunctionTracker.Lookup.{lookup-convert-register}
use driver_optimizer.EntryPoints.{
  started_arrays, TestFunction, test_ethtool, test_pci_pm, ethtool_get_link, EpState, Testing,
  initialize_ep, ep_test,
}
use driver_optimizer.EntryPoints.Table.{ep_test_ends, ethtool_test, missing_ethtool_test, silenced}
use driver_optimizer.Hashtable.Assoc.{assoc}
use driver_optimizer.Tests.{start, Objects}

abbrev Functions : Type 0
Functions = List (ℕ × FunctionValue)

abbrev no_functions : FunctionTracker Functions
no_functions = record { global_lock_acquired = 0; initialized = 1; objs = some [] }

-- every name is at its length
abbrev symbols : List ℕ → ℕ
symbols name = length name

-- "w", "d", "pci", "probe"
abbrev w : List ℕ
w = 119 ∷ []

abbrev d : List ℕ
d = 100 ∷ []

abbrev pci : List ℕ
pci = 112 ∷ 99 ∷ 105 ∷ []

abbrev probe : List ℕ
probe = 112 ∷ 114 ∷ 111 ∷ 98 ∷ 101 ∷ []

lookup-convert-register_example :
    (gen_register_one 4096 8192 w d
        >> gen_convert_fn 0xC0001000 8192 pci probe
        >> gen_lookup symbols 7 (48 ∷ []) 8192)
      no_functions
    ≡ ok (
      18,
      record no_functions { objs = some ((8192, function_value 8192 4096 d w pci probe) ∷ []) },
    )
lookup-convert-register_example =
    lookup-convert-register no_functions [] ((8192, function_value 8192 4096 d w [] []) ∷ []) 4096
      8192 0xC0001000 w d pci probe refl refl refl symbols 7 (48 ∷ []) refl refl refl

abbrev no_arrays : EpState
no_arrays = record {
  net_dev = 0;
  ethtool_fn_array = [];
  ethtool_fn_array_len = 0;
  pci_drv = 0;
  pci_dev = 0;
  pci_pm_fn_array = [];
  pci_pm_fn_array_len = 0;
  i2c_drv = 0;
  i2c_client = 0;
  i2c_pm_fn_array = [];
  i2c_pm_fn_array_len = 0;
  ep_symexec = 0;
}

abbrev testing : Testing Objects
testing = record { ep_state = started_arrays; global_state = start }

-- functions that do nothing
abbrev quiet : TestFunction → Action (Testing Objects) Unit
quiet fn = pure tt

arrays_started : initialize_ep no_arrays ≡ ok (tt, started_arrays)
unfolding initialize_ep
arrays_started = refl

ep_test_ends_example : ep_test quiet test_pci_pm (pos 1) (pos 0) testing ≢ ok (tt, testing)
ep_test_ends_example = ep_test_ends quiet test_pci_pm (pos 1) (pos 0) testing (tt, testing)

ethtool_test_example :
    ep_test quiet test_ethtool (pos 11) (pos 0) testing
    ≡ (quiet ethtool_get_link >> halt test_complete) (silenced quiet testing)
ethtool_test_example =
    ethtool_test quiet no_arrays testing 11 (pos 0) ethtool_get_link arrays_started (omega arith)
      refl

missing_ethtool_test_example :
    ep_test quiet test_ethtool (pos 45) (pos 0) testing ≡ stop null_dereference
missing_ethtool_test_example =
    missing_ethtool_test quiet no_arrays testing 45 (pos 0) arrays_started (omega arith)
      (omega arith)
