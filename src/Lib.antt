-- ===== src/Lib.antt =====
-- KagamiOS: the allocator, the network stack and its card, the PCI bus, the keyboard, the
-- storage layer, the ext4 driver, the terminal and the shell of a small x86-64 kernel, as
-- functions from state to state.
--
-- The parts and how they interact. The kernel's heap stands alone. The network stack exchanges
-- frames with one card. The keyboard's interrupt handler fills a ring buffer that readers empty.
-- A storage driver registers a block device; the partition search and the ext4 driver read and
-- write it through two function pointers; the VFS passes calls on to the mounted filesystem. The
-- driver of the network card finds it through PCI configuration space. The shell takes memory
-- for its files from the heap, calls the VFS where a filesystem is mounted, and has a text
-- editor for the files in memory.
--
-- Which file models which part:
-- * Prelude and its children: shared notation. Prelude.Tests has the Boolean tests and the
--   widths of C's unsigned types, Prelude.Bytes buffers and little-endian fields, Prelude.Cmd
--   the monad of code that changes a state and may fail, Prelude.Ensures what a command
--   guarantees of its result.
-- * Heap (kernel/core/heap.c): `HeapState` is HEAP_STATE; `malloc`, `calloc`, `free`,
--   `heap_stats` and `append_uint_dec` keep their names. Heap.Bounds, Heap.Trace, Heap.Zeroed
--   and Heap.Decimal are about them.
-- * Net (net/net.c): Net.Words has byte order and `checksum16`, Net.Dotted `net_parse_ipv4` and
--   `net_ip_to_str`, Net.Arp the ARP cache, Net.Frames the globals as the record `NetState`,
--   `net_send_frame` and `net_handle_arp`, Net.Echo `net_handle_ip`, `net_poll`, `arp_resolve`
--   and `net_ping`. Frames that the card (drivers/net/rtl8139.c) receives and sends are an inbox
--   and an outbox. Net.Checksum, Net.Send and Net.Overflow are about them.
-- * Keyboard (drivers/input/keyboard.c): `KeyboardState` is KEYBOARD_STATE; the operations keep
--   their names; `inb` and `outb` are a record of operations. Keyboard.Window and Keyboard.Queue
--   view the ring buffer as a queue.
-- * Pci (drivers/bus/pci.c, with the port operations of kernel/core/io.h as the record
--   `PortIo`): `pci_read32`, `pci_write32`, `pci_get_device`, `pci_enumerate` and
--   `pci_find_class`; `walk_buses` is the loops that the last two have in common. Pci.Walk,
--   Pci.Space and Pci.Enumerate are about them; Pci.CardBus is a bus with one card.
-- * Rtl8139 (drivers/net/rtl8139.c): `Rtl` is the file's variables and the machine;
--   `rtl_find_device`, `rtl8139_init`, `rtl8139_send` and `rtl8139_poll` keep their names.
--   Rtl8139.Find and Rtl8139.Receive are about them.
-- * Screen (kernel/core/framebuffer.c): `fb_putpixel`, `fb_putchar` and `fb_print` on the words
--   behind `fb`; Screen.Font is kernel/core/font.c, Screen.Terminal kernel/vga/vga_terminal.c
--   with its variables as the record `Terminal`. Screen.Klog kernel/core/klog.c with `g_klog` as
--   the record `KlogState`. Screen.Frame, Screen.Grid, Screen.Scroll and Screen.Window are about
--   them.
-- * Shell (kernel/shell/shell.c). Shell.Keys has `scancode_to_char` and `get_keyboard_char`;
--   Shell.Editor the operations on `TextEditor`, Shell.Session `open_text_editor`; Shell.Strings
--   the loops over strings, `build_full_path` and `get_dir_prompt`; Shell.Files the record
--   `Shell` of the file's variables, `fs_init`, `fs_load_manual` and `fs_ensure_capacity`;
--   Shell.Create and Shell.Commands the commands on files, directories and users, cut out of
--   `execute_command`, Shell.Input the loop of `fb_shell_run` up to the end of a line, and
--   Shell.Execute which branch of `execute_command` a line takes. Shell.Buffer, Shell.Edits,
--   Shell.Lines, Shell.Moves, Shell.Kept, Shell.Safe and Shell.Edited are about the editor,
--   Shell.State, Shell.Keeps, Shell.Grows, Shell.Answers, Shell.Runs and Shell.Start about the
--   commands.
-- * Storage (drivers/storage/block.h): `BlockDevice` over a medium of any type, and `IsDevice`,
--   what a working driver does. Storage.Registry is drivers/storage/block.c. Storage.Partition
--   is drivers/storage/partition.c; Storage.First, Storage.Scan, Storage.Table, which describes
--   the entries of a GPT on the disk, Storage.Entries, Storage.Gpt and Storage.Mbr are about it.
--   Storage.Journal is a device that meets `IsDevice`.
-- * Ext4 (fs/ext4/ext4.c and ext4.h): Ext4.Layout has the packed structs as bytes with their
--   fields at their offsets, Ext4.Blocks mounting, blocks, group descriptors and inodes,
--   Ext4.Extents the two copying loops, Ext4.Dir lookup and insertion in directories, Ext4.Path
--   path resolution, Ext4.Alloc the bitmaps, Ext4.File reading and writing files, Ext4.Listing
--   `ext4_list_dir`. Ext4.Resolve, Ext4.Bitmap, Ext4.Mark, Ext4.Inode, Ext4.Copy, Ext4.Listed
--   and Ext4.Fuel are about them.
-- * Vfs (fs/vfs.c): the switch in front of the filesystem.
-- Ext4.ListTests, Shell.EditorTests and the modules called Tests, Prelude.Tests apart, run the
-- definitions on concrete inputs.
--
-- How the code is modelled. Unsigned types wrap: `u8`, `u16`, `u32`, `u64`, `sub32`, `sub64`. A
-- buffer is the list of its bytes. Undefined behaviour that the model can meet (an access
-- outside a buffer, a division by zero, a shift by the width) is the outcome `fault`; a return
-- of 0 with what was written before it is `fail`; results through out parameters are the value
-- of `ok`. Local buffers that C leaves uninitialised are parameters of the network functions.
--
-- Bounds and fuel. Loops with a counter run on that counter, with the source's bounds: 50000
-- rounds of `arp_resolve`, 200000 of `net_ping`, 100000 of the waits for the PS/2 controller.
-- The walk over a directory block has no counter; it runs on one more than the block size as
-- fuel, since every record it passes moves it forward; a walk that used its fuel up would be a
-- loop without end, `none`, which counts as undefined behaviour. Path resolution runs on the
-- length of the path, since every round consumes a character. `checksum16` folds its carry three
-- times, which is enough for 32 bits; `append_uint_dec` has the 20 places of its buffer. The
-- wait for the end of the card's reset, which has no bound in the source, runs on a given number
-- of reads. The loop that doubles the capacity of the shell's files runs on the number of files
-- wanted, which suffices since every round adds at least one place; the question whether to
-- create a folder and the reading of a line run on the number of scancodes, since every answer
-- takes one.
--
-- What is not modelled: the instructions behind port input and output, messages to the serial
-- port, the calls of the log, the AHCI and NVMe drivers behind the device interface, the
-- terminal of kernel/display/gop_terminal.c, which has the code of the other under other names,
-- the text-mode screen, scaled characters, the drawing of the shell, interrupts, the UEFI
-- loader, `keyboard_wait_for_enter`, which polls without end, and the older copies of drivers
-- under kernel/ that the Makefile does not build. Of the shell, the branches help, manual,
-- clear, disks, partcheck, pci, ip, ping, logo, ls, pwd, echo, tree, status and whoami of
-- `execute_command` are left out, and the run of the editor inside it: `read` and `edit` end in
-- the call of `open_text_editor`, and Shell.Edited has what that makes of the file; the contents
-- of its files are strings, so what an array holds behind the final zero is not seen. The
-- network stack's model has an inbox and an outbox in place of the driver. What interrupts do
-- between two statements of a reader is left out: an operation on the ring buffer is one step.
pub mod Prelude
pub mod Heap
pub mod Net
pub mod Keyboard
pub mod Pci
pub mod Rtl8139
pub mod Storage
pub mod Ext4
pub mod Vfs
pub mod Screen
pub mod Shell
