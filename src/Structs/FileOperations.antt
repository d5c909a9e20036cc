-- ===== src/Structs/FileOperations.antt =====
-- The checks of the functions in a struct file_operations, gtf/structs/file_operations.c.
use driver_optimizer.Prelude.{ℤ}
use driver_optimizer.Action.{Action}
use driver_optimizer.State.{blocking_yes, user_yes}
use driver_optimizer.Framework.{Framework}
use driver_optimizer.Structs.{entry_point}

module _ {T : Type 0} where
  unfoldable pub file_operations_llseek : ℤ → Action (Framework T) Unit
  file_operations_llseek = entry_point blocking_yes user_yes

  unfoldable pub file_operations_read : ℤ → Action (Framework T) Unit
  file_operations_read = entry_point blocking_yes user_yes

  unfoldable pub file_operations_write : ℤ → Action (Framework T) Unit
  file_operations_write = entry_point blocking_yes user_yes

  unfoldable pub file_operations_aio_read : ℤ → Action (Framework T) Unit
  file_operations_aio_read = entry_point blocking_yes user_yes

  unfoldable pub file_operations_aio_write : ℤ → Action (Framework T) Unit
  file_operations_aio_write = entry_point blocking_yes user_yes

  unfoldable pub file_operations_readdir : ℤ → Action (Framework T) Unit
  file_operations_readdir = entry_point blocking_yes user_yes

  unfoldable pub file_operations_poll : ℤ → Action (Framework T) Unit
  file_operations_poll = entry_point blocking_yes user_yes

  unfoldable pub file_operations_unlocked_ioctl : ℤ → Action (Framework T) Unit
  file_operations_unlocked_ioctl = entry_point blocking_yes user_yes

  unfoldable pub file_operations_compat_ioctl : ℤ → Action (Framework T) Unit
  file_operations_compat_ioctl = entry_point blocking_yes user_yes

  unfoldable pub file_operations_mmap : ℤ → Action (Framework T) Unit
  file_operations_mmap = entry_point blocking_yes user_yes

  unfoldable pub file_operations_open : ℤ → Action (Framework T) Unit
  file_operations_open = entry_point blocking_yes user_yes

  unfoldable pub file_operations_flush : ℤ → Action (Framework T) Unit
  file_operations_flush = entry_point blocking_yes user_yes

  unfoldable pub file_operations_release : ℤ → Action (Framework T) Unit
  file_operations_release = entry_point blocking_yes user_yes

  unfoldable pub file_operations_fsync : ℤ → Action (Framework T) Unit
  file_operations_fsync = entry_point blocking_yes user_yes

  unfoldable pub file_operations_aio_fsync : ℤ → Action (Framework T) Unit
  file_operations_aio_fsync = entry_point blocking_yes user_yes

  unfoldable pub file_operations_fasync : ℤ → Action (Framework T) Unit
  file_operations_fasync = entry_point blocking_yes user_yes

  unfoldable pub file_operations_lock : ℤ → Action (Framework T) Unit
  file_operations_lock = entry_point blocking_yes user_yes

  unfoldable pub file_operations_sendpage : ℤ → Action (Framework T) Unit
  file_operations_sendpage = entry_point blocking_yes user_yes

  unfoldable pub file_operations_get_unmapped_area : ℤ → Action (Framework T) Unit
  file_operations_get_unmapped_area = entry_point blocking_yes user_yes

  unfoldable pub file_operations_mjrcheck_flags : ℤ → Action (Framework T) Unit
  file_operations_mjrcheck_flags = entry_point blocking_yes user_yes

  unfoldable pub file_operations_flock : ℤ → Action (Framework T) Unit
  file_operations_flock = entry_point blocking_yes user_yes

  unfoldable pub file_operations_splice_write : ℤ → Action (Framework T) Unit
  file_operations_splice_write = entry_point blocking_yes user_yes

  unfoldable pub file_operations_splice_read : ℤ → Action (Framework T) Unit
  file_operations_splice_read = entry_point blocking_yes user_yes

  unfoldable pub file_operations_setlease : ℤ → Action (Framework T) Unit
  file_operations_setlease = entry_point blocking_yes user_yes

  unfoldable pub file_operations_fallocate : ℤ → Action (Framework T) Unit
  file_operations_fallocate = entry_point blocking_yes user_yes
