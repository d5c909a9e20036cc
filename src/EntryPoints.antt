-- ===== src/EntryPoints.antt =====
-- The test cases of gtf/testing_ep.c, which are run by number. The bodies of the test functions call
-- into the driver: what a function does is a parameter. What is printed, and the calls that tell S2E
-- which paths to favour, are left out.
pub mod Table
use driver_optimizer.Prelude.{
  ℕ, ◌+◌, ◌-◌, Bool, true, false, not, ◌&&◌, ◌||◌, Option, none, some, List, [], ◌∷◌, ◌++◌,
  replicate, get_elem?, ltb, if◌then◌else◌, ℤ, pos, negsuc, ◌==ℤ◌,
}
use driver_optimizer.Action.{
  Action, assertion, test_complete, extra_state, null_dereference, out_of_bounds, ◌>>=◌, ◌>>◌, pure,
  halt, get, put, modify, the, zoom,
}
use driver_optimizer.State.{GlobalState}
use driver_optimizer.KernelState.{set_device_interrupts}

-- The functions that the arrays hold, by their names.
pub data TestFunction : Type 0 where
  test_start test_end : TestFunction
  ethtool_get_settings ethtool_set_settings ethtool_get_drvinfo ethtool_get_regs_len : TestFunction
  ethtool_get_regs ethtool_get_wol ethtool_set_wol ethtool_get_msglevel : TestFunction
  ethtool_set_msglevel ethtool_nway_reset ethtool_get_link ethtool_get_eeprom_len : TestFunction
  ethtool_get_eeprom ethtool_set_eeprom ethtool_get_coalesce ethtool_set_coalesce : TestFunction
  ethtool_get_ringparam ethtool_set_ringparam ethtool_get_pauseparam : TestFunction
  ethtool_set_pauseparam ethtool_get_rx_csum ethtool_set_rx_csum ethtool_get_tx_csum : TestFunction
  ethtool_set_tx_csum ethtool_get_sg ethtool_set_sg ethtool_get_tso ethtool_set_tso : TestFunction
  ethtool_self_test ethtool_get_strings ethtool_set_phys_id ethtool_get_ethtool_stats : TestFunction
  ethtool_begin ethtool_complete ethtool_get_ufo ethtool_set_ufo ethtool_get_flags : TestFunction
  ethtool_set_flags ethtool_get_priv_flags ethtool_set_priv_flags : TestFunction
  ethtool_get_sset_count : TestFunction
  pci_suspend pci_resume i2c_suspend i2c_resume : TestFunction

-- enum symdrive_TEST_CATEGORY; `other_category` is a number that is none of them
pub data TestCategory : Type 0 where
  test_ethtool test_pci_pm test_i2c_pm test_snd other_category : TestCategory

-- #define BIG_ENOUGH 1000
abbrev pub big_enough : ℕ
big_enough = 1000

-- The ends of the three ranges of numbers, which all begin at 0.
abbrev pub test_case_ethtool_end : ℕ
test_case_ethtool_end = 46

abbrev pub test_case_pci_pm_end : ℕ
test_case_pci_pm_end = 3

abbrev pub test_case_i2c_pm_end : ℕ
test_case_i2c_pm_end = 3

-- struct ep_state_struct; a NULL element of an array is `none`
pub record EpState : Type 0 where
  pub net_dev : ℕ
  pub ethtool_fn_array : List (Option TestFunction)
  pub ethtool_fn_array_len : ℕ
  pub pci_drv : ℕ
  pub pci_dev : ℕ
  pub pci_pm_fn_array : List (Option TestFunction)
  pub pci_pm_fn_array_len : ℕ
  pub i2c_drv : ℕ
  pub i2c_client : ℕ
  pub i2c_pm_fn_array : List (Option TestFunction)
  pub i2c_pm_fn_array_len : ℕ
  pub ep_symexec : ℕ

abbrev pub ethtool_functions : List (Option TestFunction)
ethtool_functions =
    some test_start
    ∷ some ethtool_get_settings
    ∷ some ethtool_set_settings
    ∷ some ethtool_get_drvinfo
    ∷ some ethtool_get_regs_len
    ∷ some ethtool_get_regs
    ∷ some ethtool_get_wol
    ∷ some ethtool_set_wol
    ∷ some ethtool_get_msglevel
    ∷ some ethtool_set_msglevel
    ∷ some ethtool_nway_reset
    ∷ some ethtool_get_link
    ∷ some ethtool_get_eeprom_len
    ∷ some ethtool_get_eeprom
    ∷ some ethtool_set_eeprom
    ∷ some ethtool_get_coalesce
    ∷ some ethtool_set_coalesce
    ∷ some ethtool_get_ringparam
    ∷ some ethtool_set_ringparam
    ∷ some ethtool_get_pauseparam
    ∷ some ethtool_set_pauseparam
    ∷ some ethtool_get_rx_csum
    ∷ some ethtool_set_rx_csum
    ∷ some ethtool_get_tx_csum
    ∷ some ethtool_set_tx_csum
    ∷ some ethtool_get_sg
    ∷ some ethtool_set_sg
    ∷ some ethtool_get_tso
    ∷ some ethtool_set_tso
    ∷ some ethtool_self_test
    ∷ some ethtool_get_strings
    ∷ some ethtool_set_phys_id
    ∷ some ethtool_get_ethtool_stats
    ∷ some ethtool_begin
    ∷ some ethtool_complete
    ∷ some ethtool_get_ufo
    ∷ some ethtool_set_ufo
    ∷ some ethtool_get_flags
    ∷ some ethtool_set_flags
    ∷ some ethtool_get_priv_flags
    ∷ some ethtool_set_priv_flags
    ∷ some ethtool_get_sset_count
    ∷ some test_end
    ∷ []

-- The state after the start: the arrays are set to 0 before they are filled, and have BIG_ENOUGH
-- elements.
abbrev pub started_arrays : EpState
started_arrays = record {
  net_dev = 0;
  ethtool_fn_array = ethtool_functions ++ replicate (big_enough - 43) none;
  ethtool_fn_array_len = 43;
  pci_drv = 0;
  pci_dev = 0;
  pci_pm_fn_array =
      some test_start
      ∷ some pci_suspend
      ∷ some pci_resume
      ∷ some test_end
      ∷ replicate (big_enough - 4) none;
  pci_pm_fn_array_len = 4;
  i2c_drv = 0;
  i2c_client = 0;
  i2c_pm_fn_array =
      some test_start
      ∷ some i2c_suspend
      ∷ some i2c_resume
      ∷ some test_end
      ∷ replicate (big_enough - 4) none;
  i2c_pm_fn_array_len = 4;
  ep_symexec = 0;
}

unfoldable pub initialize_ep : Action EpState Unit
initialize_ep = put started_arrays

unfoldable pub ep_init_net : ℕ → Action EpState Unit
ep_init_net net_dev = modify (λ s. record s { net_dev = net_dev })

unfoldable pub ep_init_pci_driver : ℕ → Action EpState Unit
ep_init_pci_driver pci_drv = modify (λ s. record s { pci_drv = pci_drv })

unfoldable pub ep_init_pci_dev : ℕ → Action EpState Unit
ep_init_pci_dev pci_dev = modify (λ s. record s { pci_dev = pci_dev })

unfoldable pub ep_init_i2c_driver : ℕ → Action EpState Unit
ep_init_i2c_driver i2c_drv = modify (λ s. record s { i2c_drv = i2c_drv })

unfoldable pub ep_init_i2c_client : ℕ → Action EpState Unit
ep_init_i2c_client i2c_client = modify (λ s. record s { i2c_client = i2c_client })

-- an `int` below a bound
abbrev pub below : ℤ → ℕ → Bool
below (pos m) n = ltb m n
below (negsuc m) n = true

-- What a test runs in: the entry points and the contexts.
pub record Testing (T : Type 0) : Type 0 where
  pub ep_state : EpState
  pub global_state : GlobalState T

module _ {T : Type 0} (call : TestFunction → Action (Testing T) Unit) where
  -- fn_array[fn_id] (); the index is not negative where this is reached
  abbrev pub call_at : List (Option TestFunction) → ℤ → Action (Testing T) Unit
  call_at fn_array (negsuc n) = halt out_of_bounds
  call_at fn_array (pos n) = do
    element ← the out_of_bounds (get_elem? fn_array n)
    fn ← the null_dereference element
    call fn

  -- `run_test` is the value that S2E chooses on this path.
  unfoldable pub ep_test_generic :
      ℤ → ℕ → ℕ → List (Option TestFunction) → Bool → ℤ → Action (Testing T) Unit
  unfolding set_device_interrupts
  ep_test_generic fn_id begin end fn_array disable_interrupts run_test = do
    if disable_interrupts
        then (do
          old ←
              zoom (λ s. s.global_state) (λ g s. record s { global_state = g })
                (set_device_interrupts 1)
          pure tt)
        else pure tt
    if below fn_id begin || not (below fn_id end) then halt assertion else pure tt
    if fn_id ==ℤ pos begin
        then (if not (below run_test (begin + 1)) && below run_test (end - 1 + 1)
            then call_at fn_array run_test
            else halt extra_state)
        else call_at fn_array fn_id
    halt test_complete

  unfoldable pub ep_test : TestCategory → ℤ → ℤ → Action (Testing T) Unit
  unfolding ep_test_generic
  ep_test test_ethtool fn_id run_test = do
    s ← get
    ep_test_generic fn_id 0 test_case_ethtool_end s.ep_state.ethtool_fn_array true run_test
  ep_test test_pci_pm fn_id run_test = do
    s ← get
    ep_test_generic fn_id 0 test_case_pci_pm_end s.ep_state.pci_pm_fn_array false run_test
  ep_test test_i2c_pm fn_id run_test = do
    s ← get
    ep_test_generic fn_id 0 test_case_i2c_pm_end s.ep_state.i2c_pm_fn_array false run_test
  ep_test test_snd fn_id run_test = halt assertion
  ep_test other_category fn_id run_test = halt assertion
