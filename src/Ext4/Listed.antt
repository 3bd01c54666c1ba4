-- ===== src/Ext4/Listed.antt =====
-- `ext4_list_dir` of fs/ext4/ext4.c stays within the caller's buffer.
use kagami_os.Prelude.{
  ℕ, zero, suc, ◌+◌, ◌^◌, ◌≤◌, ◌<◌, ◌≡◌, true, false, not, ◌||◌, [], ◌∷◌, ◌++◌, length,
  length-append, length-take, length-drop, arith, ltb, leb, leb→le, ◌==◌, u32, u64, drop,
  Bool-cases, inl, inr,
}
use kagami_os.Prelude.Bytes.{Bytes, slice, Outcome-cases}
use kagami_os.Prelude.Cmd.{lift}
use kagami_os.Prelude.Ensures.{Ensures, Ensures-bind, Ensures-any}
use kagami_os.Storage.{BlockDevice, dev_read}
use kagami_os.Ext4.Layout.{Ext4Fs, Extent, extent_at, eh_entries, is_leaf, has_extents, ft_dir}
use kagami_os.Ext4.Blocks.{ext4_read_block, ext4_read_inode, lba_of, sectors_per_block}
use kagami_os.Ext4.Path.{ext4_resolve_path}
use kagami_os.Ext4.Dir.{DirHead, head_at, settled}
use kagami_os.Ext4.Listing.{
  Listing, is_dots, list_entry, list_block, list_blocks, list_extents, ext4_list_dir,
}

-- the text leaves room for its final zero
abbrev Room : ℕ → Listing → Type 0
Room max_size l = length l.text < max_size

module _ {D : Type 0} (max_size : ℕ) (small : max_size < 2 ^ 31) where
  name_fits :
      (block text : Bytes) (off n : ℕ) (s : D)
      → length block ≤ 4096
      → length text < max_size
      → leb max_size (u32 (length text + n + 2)) ≡ false
      → Ensures (λ name. length name ≡ n × (length text + n + 2 < max_size)) (slice block off n, s)
  unfolding slice
  name_fits block text off n s len fits room = elim (Bool-cases (leb (off + n) (length block))) [
    | inl inside ↦
        let le = leb→le (off + n) (length block) inside in
        rw inside
          (omega (arith, length-take n (drop off block), length-drop off block), ground arith)
    | inr outside ↦ rw outside tt
  ]

  list_entry-Room :
      (block text : Bytes) (off : ℕ) (e : DirHead) (s : D)
      → length block ≤ 4096
      → length text < max_size
      → Ensures (Room max_size) (list_entry max_size block off e text, s)
  unfolding list_entry
  list_entry-Room block text off e s len fits =
      elim (Bool-cases (e.inode == 0 || e.name_len == 0)) [
        | inl free ↦ rw free fits
        | inr used ↦ elim (Outcome-cases (is_dots block off e)) [
          | inr (inl failed) ↦ rw (used, failed) tt
          | inr (inr crashed) ↦ rw (used, crashed) tt
          | inl (true, dots) ↦ rw (used, dots) fits
          | inl (false, named) ↦
              elim (Bool-cases (leb max_size (u32 (length text + e.name_len + 2)))) [
                | inl full ↦ rw (used, named, full) fits
                | inr room ↦
                    let fact = name_fits block text (off + 8) e.name_len s len fits room in
                    elim (Outcome-cases (slice block (off + 8) e.name_len)) [
                      | inr (inl failed) ↦ rw (used, named, room, failed) tt
                      | inr (inr crashed) ↦ rw (used, named, room, crashed) tt
                      | inl (name, cut) ↦
                          let (n, short) = rw cut at fact in
                          rw (used, named, room, cut)
                            (omega (
                              arith,
                              length-append text (name ++ (10 ∷ [])),
                              length-append name (10 ∷ []),
                            ))
                    ]
              ]
        ]
      ]

  list_block-Room :
      (fuel block_size : ℕ) (block text : Bytes) (off : ℕ) (s : D)
      → length block ≤ 4096
      → length text < max_size
      → Ensures (Room max_size) (settled (list_block fuel block_size max_size block off text), s)
  unfolding list_block
  list_block-Room zero block_size block text off s len fits = tt
  list_block-Room (suc fuel) block_size block text off s len fits =
      elim (Bool-cases (not (ltb (off + 8) block_size))) [
        | inl past ↦ rw past fits
        | inr inside ↦ elim (Outcome-cases (head_at block off)) [
          | inr (inl failed) ↦ rw (inside, failed) tt
          | inr (inr crashed) ↦ rw (inside, crashed) tt
          | inl (e, h) ↦ elim (Bool-cases (e.rec_len == 0)) [
            | inl stop ↦ rw (inside, h, stop) fits
            | inr more ↦
                let fact = list_entry-Room block text off e s len fits in
                elim (Outcome-cases (list_entry max_size block off e text)) [
                  | inr (inl failed) ↦ rw (inside, h, more, failed) tt
                  | inr (inr crashed) ↦ rw (inside, h, more, crashed) tt
                  | inl (l, entered) ↦
                      let room = rw entered at fact in
                      elim (Bool-cases l.full) [
                        | inl full ↦ rw (inside, h, more, entered, full) room
                        | inr rest ↦
                            rw (inside, h, more, entered, rest)
                              (list_block-Room fuel block_size block l.text (u32 (off + e.rec_len))
                                s len room)
                      ]
                ]
          ]
        ]
      ]

  dev_read_small :
      (dev : BlockDevice D) (room lba count : ℕ) (s : D)
      → Ensures (λ buf. length buf ≤ room) (dev_read dev room lba count s)
  unfolding dev_read
  dev_read_small dev room lba count s = ground arith

  read_block_small :
      (fs : Ext4Fs D) (block : ℕ) (s : D)
      → Ensures (λ buf. length buf ≤ 4096) (ext4_read_block fs block s)
  unfolding ext4_read_block
  read_block_small fs block s =
      dev_read_small fs.device 4096 (lba_of fs block) (sectors_per_block fs) s

module _ {D : Type 0} (fs : Ext4Fs D) (max_size : ℕ) (small : max_size < 2 ^ 31) where
  list_blocks-Room :
      (n : ℕ) (ext : Extent) (b : ℕ) (text : Bytes) (d : D)
      → length text < max_size
      → Ensures (Room max_size) (list_blocks fs max_size n ext b text d)
  unfolding list_blocks
  list_blocks-Room zero ext b text d fits = fits
  list_blocks-Room (suc n) ext b text d fits =
      let size = fs.sb.block_size in
      Ensures-bind (λ buf. length buf ≤ 4096) (Room max_size)
        (ext4_read_block fs (u64 (ext.start_block + b)) d) _
        (read_block_small max_size small fs (u64 (ext.start_block + b)) d)
        λ block d' len.
          Ensures-bind (Room max_size) (Room max_size)
            (settled (list_block (suc size) size max_size block 0 text), d') _
            (list_block-Room max_size small (suc size) size block text 0 d' len fits)
            λ l d'' room. elim (Bool-cases l.full) [
              | inl full ↦ rw full room
              | inr more ↦ rw more (list_blocks-Room n ext (b + 1) l.text d'' room)
            ]

  list_extents-Room :
      (n : ℕ) (inode : Bytes) (i : ℕ) (text : Bytes) (d : D)
      → length text < max_size
      → Ensures (Room max_size) (list_extents fs max_size n inode i text d)
  unfolding list_extents
  list_extents-Room zero inode i text d fits = fits
  list_extents-Room (suc n) inode i text d fits =
      Ensures-bind (λ _. Unit {0}) (Room max_size) (lift (extent_at inode i) d) _ (Ensures-any _)
        λ ext d' _.
          Ensures-bind (Room max_size) (Room max_size)
            (list_blocks fs max_size ext.block_count ext 0 text d') _
            (list_blocks-Room ext.block_count ext 0 text d' fits)
            λ l d'' room. elim (Bool-cases l.full) [
              | inl full ↦ rw full room
              | inr more ↦ rw more (list_extents-Room n inode (i + 1) l.text d'' room)
            ]

  -- For every device, path and directory, and a buffer of less than 2 ^ 31 bytes: the listing that
  -- `ext4_list_dir` returns leaves room in the buffer for its final zero.
  pub ext4_list_dir_fits :
      (path : Bytes) (d : D)
      → Ensures (λ text. length text + 1 ≤ max_size) (ext4_list_dir fs max_size path d)
  unfolding ext4_list_dir
  ext4_list_dir_fits path d = elim (Bool-cases (max_size == 0)) [
    | inl empty ↦ rw empty tt
    | inr some' ↦ rw some' (
        Ensures-bind (λ _. Unit {0}) _ (ext4_resolve_path fs path d) _ (Ensures-any _)
          λ found d' _. elim (Bool-cases (not (found.1 == ft_dir))) [
            | inl other ↦ rw other tt
            | inr dir ↦ rw dir (
                Ensures-bind (λ _. Unit {0}) _ (ext4_read_inode fs found.0 d') _ (Ensures-any _)
                  λ inode d'' _.
                    elim (Bool-cases (not (has_extents inode) || not (is_leaf inode))) [
                      | inl unknown ↦ rw unknown tt
                      | inr extents ↦ rw extents (
                          Ensures-bind (Room max_size) _
                            (list_extents fs max_size (eh_entries inode) inode 0 [] d'') _
                            (list_extents-Room (eh_entries inode) inode 0 [] d'' (ground arith))
                            λ l d3 room. omega arith)
                    ])
          ])
  ]
