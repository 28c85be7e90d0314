-- ===== src/Inodes/Update.antt =====
-- fs.c: iupdate changes a block that is none of the inode's own.
use os_assignment.Prelude.{ℕ, ◌*◌, ◌/◌, ◌%◌, ◌<◌, ◌≤◌, ◌≡◌, ◌≢◌, sym, arith, update_ne}
use os_assignment.Blocks.{Super, Fs, bsize}
use os_assignment.Inodes.{Inode, ndirect, max_file, put_dinode, iblock, ipb, iupdate}
use os_assignment.Inodes.Slots.{slot, content, InodeOk, Foreign}
use os_assignment.Inodes.Put.{slots_same, changed-InodeOk, still-Foreign, content-changed}

put_dinode_byte :
    (bytes : ℕ → ℕ) (i : ℕ) (ip : Inode) (j : ℕ) → bytes j < 256 → put_dinode bytes i ip j < 256
put_dinode_byte bytes i ip j h = ground (arith, h)

-- `iupdate` where the inode's block is in use and none of its own.
module _ (sb : Super) (f : Fs) (ip : Inode) (o : InodeOk sb f ip)
    (out : Foreign sb f ip (iblock sb ip.inum)) where
  plain : iblock sb ip.inum ≢ ip.addrs ndirect
  plain e = out.elsewhere max_file (omega arith) (sym e)

  pub iupdate-InodeOk : InodeOk sb (iupdate sb f ip) ip
  unfolding iupdate
  iupdate-InodeOk =
      changed-InodeOk sb f ip o (iblock sb ip.inum)
        (put_dinode (f.blocks (iblock sb ip.inum)) (ip.inum % ipb * 64) ip) out.is_used plain
        (λ j.
          put_dinode_byte (f.blocks (iblock sb ip.inum)) (ip.inum % ipb * 64) ip j
            (o.bytes (iblock sb ip.inum) j))

  pub slot-iupdate : (t : ℕ) → t ≤ max_file → slot (iupdate sb f ip) ip t ≡ slot f ip t
  unfolding iupdate
  slot-iupdate =
      slots_same sb f ip o (iblock sb ip.inum)
        (put_dinode (f.blocks (iblock sb ip.inum)) (ip.inum % ipb * 64) ip) out.is_used plain

  pub content-iupdate :
      (q : ℕ) → q / bsize < max_file → content (iupdate sb f ip) ip q ≡ content f ip q
  unfolding iupdate
  content-iupdate q l =
      content-changed sb f ip o (iblock sb ip.inum)
        (put_dinode (f.blocks (iblock sb ip.inum)) (ip.inum % ipb * 64) ip) out.is_used plain q l
        (λ e. out.elsewhere (q / bsize) (omega arith) (sym e))

  pub iupdate-Foreign :
      (d : ℕ)
      → iblock sb ip.inum ≢ d
      → Foreign sb f ip d
      → Foreign sb (iupdate sb f ip) ip d × ((iupdate sb f ip).blocks d ≡ f.blocks d)
  unfolding iupdate
  iupdate-Foreign d ne h = (
    still-Foreign sb f ip o (iblock sb ip.inum)
        (put_dinode (f.blocks (iblock sb ip.inum)) (ip.inum % ipb * 64) ip) out.is_used plain d h,
    update_ne f.blocks (put_dinode (f.blocks (iblock sb ip.inum)) (ip.inum % ipb * 64) ip) ne,
  )

  pub iupdate-home : Foreign sb (iupdate sb f ip) ip (iblock sb ip.inum)
  unfolding iupdate
  iupdate-home =
      still-Foreign sb f ip o (iblock sb ip.inum)
        (put_dinode (f.blocks (iblock sb ip.inum)) (ip.inum % ipb * 64) ip) out.is_used plain
        (iblock sb ip.inum) out
