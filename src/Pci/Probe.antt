-- ===== src/Pci/Probe.antt =====
-- A network driver whose probe registers its device: gtf/structs/pci_driver.c with register_netdev of
-- gtf/misc_checks/main.c.
use driver_optimizer.Prelude.{
  ℕ, ◌≡◌, refl, ℤ, pos, arith, false, Bool, not, ◌<◌, ◌+◌, ◌-◌, ◌==◌, ◌==ℤ◌, if◌then◌else◌,
}
use driver_optimizer.Action.{stop, assertion, ok, ◌>>◌}
use driver_optimizer.State.{
  CallState, not_called, called_ok, in_progress, called_failed, GlobalState, blocking_yes, user_no,
  max_nesting,
}
use driver_optimizer.KernelState.{push_kernel_state, pop_blocking_state, pop_user_state}
use driver_optimizer.KernelState.Stack.{
  IsNested, blocking_pushed, user_pushed, push_blocking_state_lem, push_user_state_lem,
  blocking_pushed-IsNested,
}
use driver_optimizer.Framework.{Framework}
use driver_optimizer.Checks.Network.{register_netdev_check}
use driver_optimizer.Pci.{pci_driver_probe}

-- a call that has ended
abbrev pub ended_as : ℤ → CallState
ended_as retval = if retval ==ℤ pos 0 then called_ok else called_failed

-- both succeeded, or both failed
abbrev pub agree : ℤ → ℤ → Bool
agree a b = if a ==ℤ pos 0 then b ==ℤ pos 0 else not (b ==ℤ pos 0)

module _ {T : Type 0} where
  -- The contexts inside a call.
  abbrev pub called_back : GlobalState T → GlobalState T
  called_back s = user_pushed (blocking_pushed s blocking_yes) user_no

  module _ (f : Framework T) (before retval : ℤ) (dev start irq : ℕ)
      (free : f.global_lock_acquired ≡ 0) where
    probe_begins :
        f.drivers.pci_driver_state.probed ≡ not_called
        → (start == 0) ≡ false
        → (irq == 0) ≡ false
        → push_kernel_state blocking_yes user_no f.global_state
          ≡ ok (tt, called_back f.global_state)
        → pci_driver_probe (pos 0) before dev start irq f
          ≡ ok (
            tt,
            record f {
              global_state = called_back f.global_state;
              drivers = record f.drivers {
                pci_driver_state = record f.drivers.pci_driver_state { probed = in_progress };
              };
              ep_state = record f.ep_state { pci_dev = dev };
            },
          )
    unfolding pci_driver_probe
    probe_begins new has_start has_irq pushed = ground arith

  -- a network device that was registered, or was refused
  abbrev pub netdev_known : ℤ → ℕ → Framework T → Framework T
  netdev_known registered net_dev f = record f {
    drivers = record f.drivers {
      ndo_driver_state = record f.drivers.ndo_driver_state {
        net = 1;
        register_netdev = ended_as registered;
      };
      sound_driver_state = record f.drivers.sound_driver_state { sound = 0 };
    };
    ep_state = if registered ==ℤ pos 0 then record f.ep_state { net_dev = net_dev } else f.ep_state;
  }

  netdev_registers :
      (f : Framework T) (before registered : ℤ) (net_dev : ℕ)
      → f.global_lock_acquired ≡ 0
      → f.drivers.ndo_driver_state.register_netdev ≡ not_called
      → f.drivers.ndo_driver_state.net ≡ 0
      → f.drivers.sound_driver_state.sound ≡ 0
      → (register_netdev_check (pos 0) before net_dev
            >> register_netdev_check (pos 1) registered net_dev)
          f
        ≡ ok (tt, netdev_known registered net_dev f)
  unfolding register_netdev_check
  netdev_registers f before registered net_dev free new net sound = ground arith

  -- the stacks one lower
  abbrev pub returned : GlobalState T → GlobalState T
  returned s = record s {
    blocking_context_current = s.blocking_context_current - 1;
    user_context_current = s.user_context_current - 1;
  }

  probe_ends :
      (f : Framework T) (retval registered : ℤ) (dev start irq : ℕ)
      → f.global_lock_acquired ≡ 0
      → f.drivers.pci_driver_state.probed ≡ in_progress
      → f.drivers.ndo_driver_state.register_netdev ≡ ended_as registered
      → f.drivers.ndo_driver_state.net ≡ 1
      → f.drivers.sound_driver_state.sound ≡ 0
      → 0 < f.global_state.blocking_context_current
      → 0 < f.global_state.user_context_current
      → pci_driver_probe (pos 1) retval dev start irq f ≡ (
          if agree retval registered
          then ok (
            tt,
            record f {
              global_state = returned f.global_state;
              drivers = record f.drivers {
                pci_driver_state = record f.drivers.pci_driver_state { probed = ended_as retval };
              };
            },
          )
          else stop assertion)
  unfolding pci_driver_probe pop_blocking_state pop_user_state
  probe_ends f retval registered dev start irq free probed known net sound blocking user =
      ground arith

  kernel_state_pushed :
      (s : GlobalState T)
      → IsNested s
      → s.blocking_context_current + 1 < max_nesting
      → s.user_context_current + 1 < max_nesting
      → push_kernel_state blocking_yes user_no s ≡ ok (tt, called_back s)
  unfolding push_kernel_state
  kernel_state_pushed s nested broom uroom =
      let blocked = push_blocking_state_lem s blocking_yes nested broom in
      let used =
        push_user_state_lem (blocking_pushed s blocking_yes) user_no
          (blocking_pushed-IsNested s blocking_yes nested broom) uroom in
      rw (blocked, used)

  -- while the probe runs
  abbrev pub in_probe : ℕ → Framework T → Framework T
  in_probe dev f = record f {
    global_state = called_back f.global_state;
    drivers = record f.drivers {
      pci_driver_state = record f.drivers.pci_driver_state { probed = in_progress };
    };
    ep_state = record f.ep_state { pci_dev = dev };
  }

  -- what is known after a probe that went on
  abbrev pub probed_as : ℤ → ℤ → ℕ → ℕ → Framework T → Framework T
  probed_as retval registered net_dev dev f =
      let known = netdev_known registered net_dev (in_probe dev f) in
      record known {
        global_state = returned known.global_state;
        drivers = record known.drivers {
          pci_driver_state = record known.drivers.pci_driver_state { probed = ended_as retval };
        };
      }

  -- A network driver's probe must agree with the registration that it makes: where the driver is
  -- probed for the first time and has taken no class yet, for a device with a resource and an
  -- interrupt, with the lock of the framework free and room on both stacks, the checks of the probe
  -- around those of one register_netdev return exactly if the probe and the registration both
  -- succeed or both fail, and else the path ends by an assertion. The network device is then recorded
  -- as registered or refused, the driver as probed, and both stacks are as high as before.
  pub probe-agrees :
      (f : Framework T) (before before_net retval registered : ℤ) (net_dev dev start irq : ℕ)
      → f.global_lock_acquired ≡ 0
      → f.drivers.pci_driver_state.probed ≡ not_called
      → f.drivers.ndo_driver_state.register_netdev ≡ not_called
      → f.drivers.ndo_driver_state.net ≡ 0
      → f.drivers.sound_driver_state.sound ≡ 0
      → (start == 0) ≡ false
      → (irq == 0) ≡ false
      → IsNested f.global_state
      → f.global_state.blocking_context_current + 1 < max_nesting
      → f.global_state.user_context_current + 1 < max_nesting
      → (pci_driver_probe (pos 0) before dev start irq
            >> ((register_netdev_check (pos 0) before_net net_dev
                  >> register_netdev_check (pos 1) registered net_dev)
                >> pci_driver_probe (pos 1) retval dev start irq))
          f
        ≡ (if agree retval registered
            then ok (tt, probed_as retval registered net_dev dev f)
            else stop assertion)
  probe-agrees f before before_net retval registered net_dev dev start irq free new new_net net
        sound has_start has_irq nested broom uroom =
      let pushed = kernel_state_pushed f.global_state nested broom uroom in
      let begun = probe_begins f before retval dev start irq free new has_start has_irq pushed in
      let inside = in_probe dev f in
      let known = netdev_registers inside before_net registered net_dev free new_net net sound in
      let ended =
        probe_ends (netdev_known registered net_dev inside) retval registered dev start irq free
          refl refl refl refl (omega arith) (omega arith) in
      rw (begun, known, ended) refl
