-- ===== src/Structs/Routines.antt =====
-- The functions of the driver that the kernel calls in one of two contexts, and runs of them, for the
-- files of gtf/structs/ whose checks push the context and pop it again.
use driver_optimizer.Prelude.{ℤ, pos, ◌≡◌, refl}
use driver_optimizer.Structs.{entry_point}
use driver_optimizer.Action.{Action, pure, ◌>>◌}
use driver_optimizer.State.{UserContext, user_yes, user_no, blocking_yes}
use driver_optimizer.KernelState.Nesting.{Calls, none_left, call}
use driver_optimizer.Framework.{Framework}
use driver_optimizer.Structs.FileOperations.{
  file_operations_llseek, file_operations_read, file_operations_write, file_operations_aio_read,
  file_operations_aio_write, file_operations_readdir, file_operations_poll,
  file_operations_unlocked_ioctl, file_operations_compat_ioctl, file_operations_mmap,
  file_operations_open, file_operations_flush, file_operations_release, file_operations_fsync,
  file_operations_aio_fsync, file_operations_fasync, file_operations_lock, file_operations_sendpage,
  file_operations_get_unmapped_area, file_operations_mjrcheck_flags, file_operations_flock,
  file_operations_splice_write, file_operations_splice_read, file_operations_setlease,
  file_operations_fallocate,
}
use driver_optimizer.Structs.MemoryAndBus.{
  vm_operations_struct_open, vm_operations_struct_close, vm_operations_struct_fault,
  vm_operations_struct_page_mkwrite, vm_operations_struct_access, bus_type_match, bus_type_uevent,
  bus_type_probe, bus_type_remove, bus_type_shutdown,
}
use driver_optimizer.Structs.UsbDriver.{
  usb_driver_disconnect, usb_driver_unlocked_ioctl, usb_driver_resume, usb_driver_reset_resume,
  usb_driver_pre_reset, usb_driver_post_reset,
}

-- One constructor for each routine that is nothing but an entry point. Not among them
-- are usb_driver_probe, whose check also follows the calls of probe, and usb_driver_suspend and the
-- suspend and resume of a bus, whose checks look at nothing.
pub data Routine : Type 0 where
  file_llseek file_read file_write file_aio_read file_aio_write file_readdir : Routine
  file_poll file_unlocked_ioctl file_compat_ioctl file_mmap file_open file_flush : Routine
  file_release file_fsync file_aio_fsync file_fasync file_lock file_sendpage : Routine
  file_get_unmapped_area file_mjrcheck_flags file_flock file_splice_write : Routine
  file_splice_read file_setlease file_fallocate area_open area_close area_fault : Routine
  area_page_mkwrite area_access bus_match bus_uevent bus_probe bus_remove : Routine
  bus_shutdown usb_disconnect usb_unlocked_ioctl usb_resume usb_reset_resume : Routine
  usb_pre_reset usb_post_reset : Routine

-- whether the call comes from a program
abbrev pub user_of : Routine → UserContext
user_of bus_match = user_no
user_of bus_uevent = user_no
user_of bus_probe = user_no
user_of bus_remove = user_no
user_of bus_shutdown = user_no
user_of usb_disconnect = user_no
user_of usb_resume = user_no
user_of usb_reset_resume = user_no
user_of usb_pre_reset = user_no
user_of usb_post_reset = user_no
user_of _ = user_yes

module _ {T : Type 0} where
  unfoldable pub check_of : Routine → ℤ → Action (Framework T) Unit
  check_of file_llseek = file_operations_llseek
  check_of file_read = file_operations_read
  check_of file_write = file_operations_write
  check_of file_aio_read = file_operations_aio_read
  check_of file_aio_write = file_operations_aio_write
  check_of file_readdir = file_operations_readdir
  check_of file_poll = file_operations_poll
  check_of file_unlocked_ioctl = file_operations_unlocked_ioctl
  check_of file_compat_ioctl = file_operations_compat_ioctl
  check_of file_mmap = file_operations_mmap
  check_of file_open = file_operations_open
  check_of file_flush = file_operations_flush
  check_of file_release = file_operations_release
  check_of file_fsync = file_operations_fsync
  check_of file_aio_fsync = file_operations_aio_fsync
  check_of file_fasync = file_operations_fasync
  check_of file_lock = file_operations_lock
  check_of file_sendpage = file_operations_sendpage
  check_of file_get_unmapped_area = file_operations_get_unmapped_area
  check_of file_mjrcheck_flags = file_operations_mjrcheck_flags
  check_of file_flock = file_operations_flock
  check_of file_splice_write = file_operations_splice_write
  check_of file_splice_read = file_operations_splice_read
  check_of file_setlease = file_operations_setlease
  check_of file_fallocate = file_operations_fallocate
  check_of area_open = vm_operations_struct_open
  check_of area_close = vm_operations_struct_close
  check_of area_fault = vm_operations_struct_fault
  check_of area_page_mkwrite = vm_operations_struct_page_mkwrite
  check_of area_access = vm_operations_struct_access
  check_of bus_match = bus_type_match
  check_of bus_uevent = bus_type_uevent
  check_of bus_probe = bus_type_probe
  check_of bus_remove = bus_type_remove
  check_of bus_shutdown = bus_type_shutdown
  check_of usb_disconnect = usb_driver_disconnect
  check_of usb_unlocked_ioctl = usb_driver_unlocked_ioctl
  check_of usb_resume = usb_driver_resume
  check_of usb_reset_resume = usb_driver_reset_resume
  check_of usb_pre_reset = usb_driver_pre_reset
  check_of usb_post_reset = usb_driver_post_reset

  -- Each of them is an entry point in its context.
  pub check_of_lem :
      (routine : Routine) → check_of routine ≡ entry_point blocking_yes (user_of routine)
  unfolding check_of file_operations_llseek file_operations_read file_operations_write
      file_operations_aio_read file_operations_aio_write file_operations_readdir
      file_operations_poll file_operations_unlocked_ioctl file_operations_compat_ioctl
      file_operations_mmap file_operations_open file_operations_flush file_operations_release
      file_operations_fsync file_operations_aio_fsync file_operations_fasync file_operations_lock
      file_operations_sendpage file_operations_get_unmapped_area file_operations_mjrcheck_flags
      file_operations_flock file_operations_splice_write file_operations_splice_read
      file_operations_setlease file_operations_fallocate vm_operations_struct_open
      vm_operations_struct_close vm_operations_struct_fault vm_operations_struct_page_mkwrite
      vm_operations_struct_access bus_type_match bus_type_uevent bus_type_probe bus_type_remove
      bus_type_shutdown usb_driver_disconnect usb_driver_unlocked_ioctl usb_driver_resume
      usb_driver_reset_resume usb_driver_pre_reset usb_driver_post_reset
  check_of_lem file_llseek = refl
  check_of_lem file_read = refl
  check_of_lem file_write = refl
  check_of_lem file_aio_read = refl
  check_of_lem file_aio_write = refl
  check_of_lem file_readdir = refl
  check_of_lem file_poll = refl
  check_of_lem file_unlocked_ioctl = refl
  check_of_lem file_compat_ioctl = refl
  check_of_lem file_mmap = refl
  check_of_lem file_open = refl
  check_of_lem file_flush = refl
  check_of_lem file_release = refl
  check_of_lem file_fsync = refl
  check_of_lem file_aio_fsync = refl
  check_of_lem file_fasync = refl
  check_of_lem file_lock = refl
  check_of_lem file_sendpage = refl
  check_of_lem file_get_unmapped_area = refl
  check_of_lem file_mjrcheck_flags = refl
  check_of_lem file_flock = refl
  check_of_lem file_splice_write = refl
  check_of_lem file_splice_read = refl
  check_of_lem file_setlease = refl
  check_of_lem file_fallocate = refl
  check_of_lem area_open = refl
  check_of_lem area_close = refl
  check_of_lem area_fault = refl
  check_of_lem area_page_mkwrite = refl
  check_of_lem area_access = refl
  check_of_lem bus_match = refl
  check_of_lem bus_uevent = refl
  check_of_lem bus_probe = refl
  check_of_lem bus_remove = refl
  check_of_lem bus_shutdown = refl
  check_of_lem usb_disconnect = refl
  check_of_lem usb_unlocked_ioctl = refl
  check_of_lem usb_resume = refl
  check_of_lem usb_reset_resume = refl
  check_of_lem usb_pre_reset = refl
  check_of_lem usb_post_reset = refl

-- A run of the kernel's calls of the driver: each call may lead to others before it returns.
pub data Run : Type 0 where
  idle : Run
  entered : Routine → Run → Run → Run

module _ {T : Type 0} where
  unfoldable pub run_driver : Run → Action (Framework T) Unit
  run_driver idle = pure tt
  run_driver (entered routine body rest) = do
    check_of routine (pos 0)
    run_driver body
    check_of routine (pos 1)
    run_driver rest

-- the contexts of a run
abbrev pub calls_of : Run → Calls
calls_of idle = none_left
calls_of (entered routine body rest) =
    call blocking_yes (user_of routine) (calls_of body) (calls_of rest)
