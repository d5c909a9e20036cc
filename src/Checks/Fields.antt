-- ===== src/Checks/Fields.antt =====
-- The fields that the checks pass to set_call_state, as parts of the driver's state: the second
-- argument of `set_call_state (fn, &usb_driver_state.registered, ..)` and so on.
use driver_optimizer.Action.{Action, zoom}
use driver_optimizer.State.{CallState, Drivers}

abbrev pub on_usb_registered : Action CallState Unit → Action Drivers Unit
on_usb_registered =
    zoom (λ d. d.usb_driver_state.registered)
      (λ c d. record d { usb_driver_state = record d.usb_driver_state { registered = c } })

abbrev pub on_usb_probed : Action CallState Unit → Action Drivers Unit
on_usb_probed =
    zoom (λ d. d.usb_driver_state.probed)
      (λ c d. record d { usb_driver_state = record d.usb_driver_state { probed = c } })

abbrev pub on_misc_registered : Action CallState Unit → Action Drivers Unit
on_misc_registered =
    zoom (λ d. d.misc_driver_state.registered)
      (λ c d. record d { misc_driver_state = record d.misc_driver_state { registered = c } })

abbrev pub on_proto_registered : Action CallState Unit → Action Drivers Unit
on_proto_registered =
    zoom (λ d. d.proto_ops_state.registered)
      (λ c d. record d { proto_ops_state = record d.proto_ops_state { registered = c } })

abbrev pub on_proto_unregistered : Action CallState Unit → Action Drivers Unit
on_proto_unregistered =
    zoom (λ d. d.proto_ops_state.unregistered)
      (λ c d. record d { proto_ops_state = record d.proto_ops_state { unregistered = c } })

abbrev pub on_i2c_registered : Action CallState Unit → Action Drivers Unit
on_i2c_registered =
    zoom (λ d. d.i2c_driver_state.registered)
      (λ c d. record d { i2c_driver_state = record d.i2c_driver_state { registered = c } })

abbrev pub on_i2c_probed : Action CallState Unit → Action Drivers Unit
on_i2c_probed =
    zoom (λ d. d.i2c_driver_state.probed)
      (λ c d. record d { i2c_driver_state = record d.i2c_driver_state { probed = c } })

abbrev pub on_platform_registered : Action CallState Unit → Action Drivers Unit
on_platform_registered =
    zoom (λ d. d.platform_driver_state.registered)
      (λ c d. record d {
        platform_driver_state = record d.platform_driver_state { registered = c };
      })

abbrev pub on_platform_probed : Action CallState Unit → Action Drivers Unit
on_platform_probed =
    zoom (λ d. d.platform_driver_state.probed)
      (λ c d. record d { platform_driver_state = record d.platform_driver_state { probed = c } })

abbrev pub on_spi_registered : Action CallState Unit → Action Drivers Unit
on_spi_registered =
    zoom (λ d. d.spi_driver_state.registered)
      (λ c d. record d { spi_driver_state = record d.spi_driver_state { registered = c } })

abbrev pub on_spi_probed : Action CallState Unit → Action Drivers Unit
on_spi_probed =
    zoom (λ d. d.spi_driver_state.probed)
      (λ c d. record d { spi_driver_state = record d.spi_driver_state { probed = c } })

abbrev pub on_register_netdev : Action CallState Unit → Action Drivers Unit
on_register_netdev =
    zoom (λ d. d.ndo_driver_state.register_netdev)
      (λ c d. record d { ndo_driver_state = record d.ndo_driver_state { register_netdev = c } })

abbrev pub on_unregister_netdev : Action CallState Unit → Action Drivers Unit
on_unregister_netdev =
    zoom (λ d. d.ndo_driver_state.unregister_netdev)
      (λ c d. record d { ndo_driver_state = record d.ndo_driver_state { unregister_netdev = c } })

abbrev pub on_capable : Action CallState Unit → Action Drivers Unit
on_capable =
    zoom (λ d. d.ndo_driver_state.capable)
      (λ c d. record d { ndo_driver_state = record d.ndo_driver_state { capable = c } })

abbrev pub on_napi_schedule : Action CallState Unit → Action Drivers Unit
on_napi_schedule =
    zoom (λ d. d.ndo_driver_state.napi_schedule)
      (λ c d. record d { ndo_driver_state = record d.ndo_driver_state { napi_schedule = c } })

abbrev pub on_netif_rx : Action CallState Unit → Action Drivers Unit
on_netif_rx =
    zoom (λ d. d.ndo_driver_state.netif_rx)
      (λ c d. record d { ndo_driver_state = record d.ndo_driver_state { netif_rx = c } })

abbrev pub on_opened : Action CallState Unit → Action Drivers Unit
on_opened =
    zoom (λ d. d.ndo_driver_state.opened)
      (λ c d. record d { ndo_driver_state = record d.ndo_driver_state { opened = c } })
