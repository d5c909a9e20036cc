-- ===== src/Lib.antt =====
-- Models and theorems for the SymDrive test framework in gtf/: the C code that runs beside a driver
-- under symbolic execution, sees every call between the driver and the kernel before (prepost 0) and
-- after (prepost 1) it is made, and ends the path where the driver breaks a rule of the kernel.
--
-- The parts, and where they are modelled:
-- - Action: how the functions run. An action takes a state and returns a value with a new state, or
--   stops the path: the macros assert, tfassert and tfassert_detail of gtf/globals.h, and what C
--   leaves undefined (a NULL pointer that is read, an array that is overrun).
-- - State: the enumerations and structures of gtf/test_state.h and the globals of gtf/test_state.c.
-- - KernelState: the stacks of contexts, push_ and pop_ functions and mem_flags_test of
--   gtf/test_state.c. Stack says what the arrays hold, Nesting follows nested calls.
-- - DriverState: bus, class, call states and device states of gtf/test_state.c.
-- - ObjectTracker: generic_allocator, generic_free and the object table of gtf/test_state.c.
--   Allocation has the map that it implements, Reports what it says of faulty drivers.
-- - Locks: generic_lock_allocator, generic_lock_state, verify_lock_state and lock_kernel_state of
--   gtf/test_state.c. Holder relates a lock's nine states to its one holder, Outcome says
--   what a call does to the lock and to the contexts.
-- - Capable: ioctl_called_capable and call_capable of gtf/test_state.c.
-- - GlobalLock, Framework: gtf/global_lock.c, the state of all parts together, and the start of it.
-- - Irq: gtf/misc_checks/irq.c. Irq has the table of requests, Irq.Handlers the handler's entry point
--   and call_interrupt_handlers, Irq.Routines the check routines with the lock around them,
--   Irq.Rate the turns of the loop that come to one request.
-- - Pci: gtf/misc_checks/pci.c and gtf/structs/pci_driver.c, over the whole state. Pci.ConfigSpace has
--   gtf/misc_checks/pci_config_space.c, Pci.Probe a probe that registers a network device.
-- - Checks: the check routines of gtf/misc_checks/main.c, class.c, driver_core.c, gpio.c, i2c.c, mii.c,
--   platform.c and spi.c, by what they are about: Allocators, Deallocators, Uses, LockCalls, Network,
--   Buses, Timers, Bypassed (functions of the kernel that do not run) and Gpio. KernelCalls and Memory
--   follow a history of allocations, SpinCalls and Sections a section under a
--   lock, Netdev a network device that is registered again.
-- - Structs: the files of gtf/structs/ but pci_driver.c. Routines and Nesting follow a driver that the
--   kernel enters again while it runs.
-- - EnterExit: gtf/enter_exit.c. Wrappers has the functions that generated code calls, Names and
--   CallStack the stack of running functions, Exits the return to the kernel, MadeUp the results that
--   the kernel did not return.
-- - Emulation: gtf/bus_generic_pci.c, bus_i2c.c, bus_platform.c and bus_spi.c. Clients, Making and
--   RoundTrip follow the clients of the I2C devices, Smbus and Transfers have stub_xfer, Messages
--   has master_xfer.
-- - Startup: gtf/init_module.c, over the state of all parts and the emulated devices. Started has what
--   holds when the module is loaded.
-- - FunctionTracker: gtf/function_tracker.c.
-- - EntryPoints: gtf/testing_ep.c and gtf/testing_ep.h.
--
-- The parts meet in the object table, which the tracker and the locks share; in the contexts, which
-- the locks, the entry points and the interrupt handlers push and call_interrupt_handlers reads; and in
-- the lock of the framework, which every check routine takes (Framework.Locked). Framework.Lifts takes
-- what is known of the global state to runs of check routines.
--
-- Parameters: the hash table of gtf/hashtable/ is a copy of a library and is an instance argument
-- with the laws of its calls (Hashtable; Hashtable.Assoc shows that the laws can hold). What comes
-- from the kernel's headers is the record Kernel. The driver's interrupt handlers, the kernel's symbol
-- table, the bodies of the entry point tests and the value that S2E chooses are arguments. The kernel's
-- answers to the emulated devices are the records Answers and PciCore of Emulation.
--
-- Configuration: LINUX_MODE, no DISABLE_ macro, a 32-bit kernel. An argument `fn` that is only
-- printed is left out, and so is printing, but for the two buffers of dump_params. A `char` is a
-- byte with wrap-around; an index or a counter that the code tests before it decrements it is a
-- natural number. A pointer is a number, 0 for NULL. A structure that the table points to is read,
-- changed and written back.
--
-- Bounds: generic_lock_state calls itself, and takes a bound on how often; two is enough on the
-- precondition branch, and no bound is on the postcondition branch for a lock that is not tracked.
-- All other recursion is on lists or on the number of entries that are left.
--
-- Not modelled: the device that controls the tests (gtf/testing_ep_control.c and app_ep_control.c), which
-- is glue to the kernel; the wrappers of S2E's instructions; the FreeBSD code; and CIL, which is a
-- program of its own. In gtf/enter_exit.c, what is written to the two buffers of the
-- dump of the call stack.
mod Prelude
pub mod Action
pub mod Hashtable
pub mod State
pub mod KernelState
pub mod DriverState
pub mod ObjectTracker
pub mod Locks
pub mod Capable
pub mod Checks
pub mod GlobalLock
pub mod Framework
pub mod Irq
pub mod Pci
pub mod Structs
pub mod FunctionTracker
pub mod Emulation
pub mod EntryPoints
pub mod EnterExit
pub mod Startup
mod Tests
