-- ===== src/Checks/Network.antt =====
-- The checks of a network driver's calls, gtf/misc_checks/main.c and gtf/misc_checks/mii.c.
use driver_optimizer.Prelude.{ℕ, ℤ, pos, Bool, ◌==◌, ◌==ℤ◌, if◌then◌else◌, bit_and}
use driver_optimizer.Action.{Action, pure, get, put, halt, assertion, tfassert, ◌>>=◌, ◌>>◌}
use driver_optimizer.State.{
  not_called, in_progress, called_ok, called_failed, call_is, Drivers, driver_net, driver_pci,
  bus_bit, device_state_enabled, device_is,
}
use driver_optimizer.DriverState.{set_call_state, set_driver_class, get_driver_bus}
use driver_optimizer.EntryPoints.{ep_init_net}
use driver_optimizer.Capable.{call_capable}
use driver_optimizer.Framework.{
  Framework, on_drivers, on_ep_state, on_capable_state, check_routine, check_routine_with,
}
use driver_optimizer.Checks.{sides, after_call}
use driver_optimizer.Checks.Fields.{
  on_register_netdev, on_unregister_netdev, on_capable, on_napi_schedule, on_netif_rx,
}

abbrev pub netdev_registered : Action Drivers Unit
netdev_registered = do d ← get; tfassert (call_is d.ndo_driver_state.register_netdev called_ok)

module _ {T : Type 0} where
  -- __napi_schedule
  unfoldable pub napi_schedule_check : ℤ → Action (Framework T) Unit
  unfolding check_routine set_call_state
  napi_schedule_check prepost = check_routine (
      on_drivers (
        sides prepost (on_napi_schedule (set_call_state in_progress))
          (on_napi_schedule (set_call_state called_ok))))

  unfoldable pub netif_rx_check : ℤ → Action (Framework T) Unit
  unfolding check_routine set_call_state
  netif_rx_check prepost = check_routine (
      on_drivers (
        sides prepost (on_netif_rx (set_call_state in_progress))
          (on_netif_rx (set_call_state called_ok))))

  unfoldable pub register_netdev_check : ℤ → ℤ → ℕ → Action (Framework T) Unit
  unfolding check_routine set_call_state set_driver_class ep_init_net
  register_netdev_check prepost retval dev = check_routine (
      sides prepost
        (on_drivers
          (do on_register_netdev (set_call_state in_progress); set_driver_class driver_net))
        (if retval ==ℤ pos 0
          then (do
            on_ep_state (ep_init_net dev)
            on_drivers (on_register_netdev (set_call_state called_ok)))
          else on_drivers (on_register_netdev (set_call_state called_failed))))

  unfoldable pub unregister_netdev_check : ℤ → Action (Framework T) Unit
  unfolding check_routine set_call_state get_driver_bus
  unregister_netdev_check prepost = check_routine (
      on_drivers (
        sides prepost
          (do
            d ← get
            if bit_and (get_driver_bus d) (bus_bit driver_pci) == 0
                then pure tt
                else tfassert (device_is d.pci_driver_state.enabled device_state_enabled)
            tfassert (call_is d.ndo_driver_state.register_netdev called_ok)
            tfassert (call_is d.ndo_driver_state.unregister_netdev not_called)
            on_unregister_netdev (set_call_state in_progress))
          (do
            on_register_netdev (set_call_state not_called)
            on_unregister_netdev (set_call_state not_called))))

  -- where g_sym_kill_carrier_off is set, one call is allowed
  abbrev pub carrier_off_once : Action (Framework T) Unit
  carrier_off_once = do
    f ← get
    if f.carrier.g_sym_kill_carrier_off ==ℤ pos 0
        then pure tt
        else if f.carrier.carrier_off_called == 0
        then put (record f { carrier = record f.carrier { carrier_off_called = 1 } })
        else halt assertion

  unfoldable pub netif_carrier_off_check : ℤ → Action (Framework T) Unit
  unfolding check_routine
  netif_carrier_off_check prepost =
      check_routine (sides prepost (do on_drivers netdev_registered; carrier_off_once) (pure tt))

  unfoldable pub netif_stop_queue_check : ℤ → Action (Framework T) Unit
  unfolding check_routine
  netif_stop_queue_check prepost =
      check_routine (on_drivers (sides prepost netdev_registered (pure tt)))

  unfoldable pub capable_check : ℤ → Bool → ℤ → Action (Framework T) Unit
  unfolding check_routine call_capable
  capable_check prepost retval cap =
      check_routine (on_capable_state (call_capable prepost retval cap))

  unfoldable pub generic_mii_ioctl_check : ℤ → Action (Framework T) Unit
  unfolding check_routine set_call_state
  generic_mii_ioctl_check prepost = check_routine (
      on_drivers (
        sides prepost (on_capable (set_call_state in_progress))
          (on_capable (set_call_state called_ok))))

  -- `netif_carrier_on` is a call of the kernel
  unfoldable pub mii_check_link_check : Action (Framework T) Unit → ℤ → Action (Framework T) Unit
  unfolding check_routine
  mii_check_link_check netif_carrier_on prepost = check_routine (
      after_call prepost (do
        f ← get
        if f.carrier.g_sym_kill_carrier_off ==ℤ pos 0 then pure tt else netif_carrier_on))

  unfoldable pub mii_check_media_check : Action (Framework T) Unit → ℤ → Action (Framework T) Unit
  unfolding check_routine
  mii_check_media_check netif_carrier_on prepost = check_routine (
      after_call prepost (do
        f ← get
        if f.carrier.g_sym_kill_carrier_off ==ℤ pos 0 then pure tt else netif_carrier_on))

  -- gives the value of `*retval` afterwards
  unfoldable pub mii_link_ok_check : ℤ → ℤ → Action (Framework T) ℤ
  unfolding check_routine_with
  mii_link_ok_check prepost retval = check_routine_with (do
    f ← get
    pure (
        if prepost ==ℤ pos 1
        then (if f.carrier.g_sym_kill_carrier_off ==ℤ pos 0 then retval else pos 1)
        else retval))
