-- ===== src/Vfs.antt =====
-- fs/vfs.c: the switch in front of the filesystem. Its state `g_ext4` is the mounted filesystem.
use kagami_os.Prelude.{ℕ, Bool, true, false, Option, none, some}
use kagami_os.Prelude.Bytes.{Bytes}
use kagami_os.Prelude.Cmd.{Cmd, give_up}
use kagami_os.Ext4.Layout.{Ext4Fs}
use kagami_os.Ext4.File.{ext4_read_file, ext4_write_file}
use kagami_os.Ext4.Listing.{ext4_list_dir}

module _ {D : Type 0} where
  -- The result and the new `g_ext4`.
  unfoldable pub vfs_mount_ext4 : Option (Ext4Fs D) → Bool × Option (Ext4Fs D)
  vfs_mount_ext4 none = (false, none)
  vfs_mount_ext4 (some fs) = (true, some fs)

  unfoldable pub vfs_is_mounted : Option (Ext4Fs D) → Bool
  vfs_is_mounted none = false
  vfs_is_mounted (some fs) = true

  unfoldable pub vfs_list_dir : Option (Ext4Fs D) → Bytes → (max_size : ℕ) → Cmd D Bytes
  vfs_list_dir none path max_size = give_up
  vfs_list_dir (some fs) path max_size = ext4_list_dir fs max_size path

  unfoldable pub vfs_read_file : Option (Ext4Fs D) → Bytes → (max_size : ℕ) → Cmd D Bytes
  vfs_read_file none path max_size = give_up
  vfs_read_file (some fs) path max_size = ext4_read_file fs path max_size

  unfoldable pub vfs_write_file : Option (Ext4Fs D) → Bytes → Bytes → (size : ℕ) → Cmd D (Unit {0})
  vfs_write_file none path buffer size = give_up
  vfs_write_file (some fs) path buffer size = ext4_write_file fs path buffer size
