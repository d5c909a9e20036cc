-- ===== src/Structs/NetDevice.antt =====
-- The checks of the functions in a struct net_device_ops, gtf/structs/net_device_ops.c. The fields
-- of the device and of the buffer that the code reads are arguments: `state` is
-- netdev_get_tx_queue (*dev, 0)->state.
use driver_optimizer.Prelude.{
  ℕ, ℤ, pos, negsuc, Bool, not, bit_and, leb, List, ◌||◌, ◌==◌, ◌==ℤ◌, if◌then◌else◌,
}
use driver_optimizer.Action.{Action, pure, get, put, tfassert, ◌>>=◌, ◌>>◌}
use driver_optimizer.Hashtable.{Hashtable}
use driver_optimizer.State.{
  HValue, Kernel, ulong_max, blocking_yes, blocking_no, user_no, Drivers, not_called, in_progress,
  called_ok, called_failed, call_is, origin_dev_alloc_skb,
}
use driver_optimizer.KernelState.{push_kernel_state, pop_kernel_state}
use driver_optimizer.DriverState.{set_call_state}
use driver_optimizer.ObjectTracker.{generic_allocator, generic_free}
use driver_optimizer.Capable.{ioctl_called_capable}
use driver_optimizer.Irq.{is_irq_allocated}
use driver_optimizer.Framework.{
  Framework, on_drivers, on_irqs, on_global_state, on_capable_state, check_routine,
}
use driver_optimizer.Checks.{sides}
use driver_optimizer.Checks.Fields.{on_opened}
use driver_optimizer.Structs.{unchecked}

-- one of the five probes is CALLED_OK
abbrev pub any_probed : Drivers → Bool
any_probed d =
    call_is d.pci_driver_state.probed called_ok
    || call_is d.usb_driver_state.probed called_ok
    || call_is d.i2c_driver_state.probed called_ok
    || call_is d.platform_driver_state.probed called_ok
    || call_is d.spi_driver_state.probed called_ok

-- retval <= 0 && retval >= -4095
abbrev pub is_result : ℤ → Bool
is_result (pos n) = n == 0
is_result (negsuc n) = leb n 4094

-- An sk_buff: skb->head and skb->len.
pub record SkBuff : Type 0 where
  pub head : ℕ
  pub len : ℕ

-- the first field that is written is kept for a test that is commented out
abbrev pub set_trans_start : ℕ → Drivers → Drivers
set_trans_start trans_start d = record d {
  ndo_driver_state = record d.ndo_driver_state { trans_start_check = trans_start };
}

module _ {T : Type 0} where
  -- what is done where an open has succeeded, and where it has failed
  abbrev pub open_ended : Kernel → ℤ → ℕ → Action (Framework T) Unit
  open_ended k retval state =
      if retval ==ℤ pos 0
      then (do
        tfassert (bit_and state k.queue_state_xoff == 0)
        on_drivers (on_opened (set_call_state called_ok)))
      else (do
        allocated ← on_irqs is_irq_allocated
        tfassert (allocated == 0)
        tfassert (not (bit_and state k.queue_state_xoff == 0))
        on_drivers (on_opened (set_call_state called_failed)))

  -- `name` is (*dev)->name, the address of an array
  unfoldable pub net_device_ops_ndo_open : Kernel → ℤ → ℤ → ℕ → ℕ → Action (Framework T) Unit
  unfolding check_routine push_kernel_state pop_kernel_state set_call_state is_irq_allocated
  net_device_ops_ndo_open k prepost retval name state = check_routine (
      sides prepost
        (do
          f ← get
          tfassert (
              call_is f.drivers.ndo_driver_state.opened not_called
              || call_is f.drivers.ndo_driver_state.opened called_failed)
          tfassert (any_probed f.drivers)
          tfassert (not (name == 0))
          on_global_state (push_kernel_state blocking_yes user_no)
          on_drivers (on_opened (set_call_state in_progress)))
        (do
          tfassert (is_result retval)
          open_ended k retval state
          on_global_state pop_kernel_state))

  unfoldable pub net_device_ops_ndo_stop : Kernel → ℤ → ℕ → Action (Framework T) Unit
  unfolding check_routine push_kernel_state pop_kernel_state
  net_device_ops_ndo_stop k prepost state = check_routine (
      sides prepost
        (do
          f ← get
          tfassert (any_probed f.drivers)
          on_global_state (push_kernel_state blocking_yes user_no))
        (do tfassert (k.test_bit k.queue_state_xoff state); on_global_state pop_kernel_state))

  -- `priv` is netdev_priv (*dev); `busy` is *retval != NETDEV_TX_OK. The test that the length is not
  -- negative holds of an unsigned number.
  unfoldable pub net_device_ops_ndo_start_xmit :
      ⦃h : Hashtable T HValue⦄
      → ⦃k : Kernel⦄ → List ℕ
      → ℤ
      → Bool
      → SkBuff
      → ℕ
      → ℕ
      → Action (Framework T) Unit
  unfolding check_routine push_kernel_state pop_kernel_state generic_allocator generic_free
  net_device_ops_ndo_start_xmit fn prepost busy skb priv trans_start = check_routine (
      if prepost ==ℤ pos 0
      then (do
        tfassert (leb skb.len 1536)
        tfassert (not (priv == 0))
        f ← get
        tfassert (any_probed f.drivers)
        put (record f { drivers = set_trans_start trans_start f.drivers })
        on_global_state (push_kernel_state blocking_no user_no)
        on_global_state (generic_allocator fn (pos 1) skb.head ulong_max origin_dev_alloc_skb))
      else if prepost ==ℤ pos 1
      then (do
        if busy
            then on_global_state (generic_free (pos 0) skb.head origin_dev_alloc_skb)
            else pure tt
        f ← get
        put (record f { carrier = record f.carrier { g_sym_kill_carrier_off = pos 0 } })
        on_global_state pop_kernel_state)
      else pure tt)

  unfoldable pub net_device_ops_ndo_do_ioctl : Kernel → ℤ → ℤ → ℤ → Action (Framework T) Unit
  unfolding check_routine ioctl_called_capable
  net_device_ops_ndo_do_ioctl k prepost retval cmd =
      check_routine
        (sides prepost (pure tt) (on_capable_state (ioctl_called_capable k prepost retval cmd)))

  unfoldable pub net_device_ops_ndo_init : Action (Framework T) Unit
  unfolding unchecked
  net_device_ops_ndo_init = unchecked

  unfoldable pub net_device_ops_ndo_uninit : Action (Framework T) Unit
  unfolding unchecked
  net_device_ops_ndo_uninit = unchecked

  unfoldable pub net_device_ops_ndo_select_queue : Action (Framework T) Unit
  unfolding unchecked
  net_device_ops_ndo_select_queue = unchecked

  unfoldable pub net_device_ops_ndo_change_rx_flags : Action (Framework T) Unit
  unfolding unchecked
  net_device_ops_ndo_change_rx_flags = unchecked

  unfoldable pub net_device_ops_ndo_set_rx_mode : Action (Framework T) Unit
  unfolding unchecked
  net_device_ops_ndo_set_rx_mode = unchecked

  unfoldable pub net_device_ops_ndo_set_multicast_list : Action (Framework T) Unit
  unfolding unchecked
  net_device_ops_ndo_set_multicast_list = unchecked

  unfoldable pub net_device_ops_ndo_set_mac_address : Action (Framework T) Unit
  unfolding unchecked
  net_device_ops_ndo_set_mac_address = unchecked

  unfoldable pub net_device_ops_ndo_validate_addr : Action (Framework T) Unit
  unfolding unchecked
  net_device_ops_ndo_validate_addr = unchecked

  unfoldable pub net_device_ops_ndo_set_config : Action (Framework T) Unit
  unfolding unchecked
  net_device_ops_ndo_set_config = unchecked

  unfoldable pub net_device_ops_ndo_change_mtu : Action (Framework T) Unit
  unfolding unchecked
  net_device_ops_ndo_change_mtu = unchecked

  unfoldable pub net_device_ops_ndo_neigh_setup : Action (Framework T) Unit
  unfolding unchecked
  net_device_ops_ndo_neigh_setup = unchecked

  unfoldable pub net_device_ops_ndo_tx_timeout : Action (Framework T) Unit
  unfolding unchecked
  net_device_ops_ndo_tx_timeout = unchecked

  unfoldable pub net_device_ops_ndo_get_stats64 : Action (Framework T) Unit
  unfolding unchecked
  net_device_ops_ndo_get_stats64 = unchecked

  unfoldable pub net_device_ops_ndo_get_stats : Action (Framework T) Unit
  unfolding unchecked
  net_device_ops_ndo_get_stats = unchecked

  unfoldable pub net_device_ops_ndo_vlan_rx_add_vid : Action (Framework T) Unit
  unfolding unchecked
  net_device_ops_ndo_vlan_rx_add_vid = unchecked

  unfoldable pub net_device_ops_ndo_vlan_rx_kill_vid : Action (Framework T) Unit
  unfolding unchecked
  net_device_ops_ndo_vlan_rx_kill_vid = unchecked

  unfoldable pub net_device_ops_ndo_poll_controller : Action (Framework T) Unit
  unfolding unchecked
  net_device_ops_ndo_poll_controller = unchecked
