-- ===== src/FileIo/Pieces.antt =====
-- file.c: a write in pieces is one write, also where others run between the pieces.
use mathlib.Core.Path.{subst}
use os_assignment.Prelude.{
  ℕ, zero, suc, ◌+◌, ◌-◌, ◌*◌, ◌^◌, ◌<◌, ◌≤◌, ◌≡◌, ◌≢◌, ◌⊎◌, inl, inr, refl, ap, ◌∙◌, sym, arith,
  min, Bool, true, false, List, [], ◌∷◌, leb, ◌==◌, length, take, drop, length-take, length-drop,
  All, ok, panic,
}
use os_assignment.Blocks.{Super, Fs, bsize}
use os_assignment.Inodes.{Inode, max_file, t_dev, iblock, writei, done}
use os_assignment.Inodes.Slots.{InodeOk, Foreign}
use os_assignment.Inodes.Write.{All-take, All-drop}
use os_assignment.Inodes.WriteCall.{writei_lem}
use os_assignment.FileIo.{piece, advance, write_pieces, write_inode}
use os_assignment.FileIo.Rewritten.{
  LeaveFile, Rewritten, SameFile, Rewritten-step, Rewritten-nothing, Rewritten-SameFile,
}

module _ (sb : Super) (has : ℕ → Bool) (dev_read : ℕ → ℕ → ℕ) (dev_write : ℕ → List ℕ → ℕ)
    (others : ℕ → Fs × Inode × ℕ → Fs × Inode × ℕ) where
  -- A round of the loop in which all bytes were written.
  piece_run :
      (k : ℕ) (f f0 f1 : Fs) (ip ip0 ip1 : Inode) (off off0 n1 : ℕ) (xs : List ℕ)
      → min (length xs) piece ≡ n1
      → (length xs == 0) ≡ false
      → others (length xs) (f, ip, off) ≡ (f0, ip0, off0)
      → writei sb has f0 ip0 off0 (take n1 xs) ≡ ok (f1, ip1, done (length (take n1 xs)))
      → length (take n1 xs) ≡ n1
      → leb (2 ^ 31) (length (take n1 xs)) ≡ false
      → (length (take n1 xs) == n1) ≡ true
      → advance sb has dev_read dev_write off0 (length (take n1 xs)) ≡ off + n1
      → write_pieces sb has dev_read dev_write others (suc k) f ip off xs
        ≡ write_pieces sb has dev_read dev_write others k f1 ip1 (off + n1) (drop n1 xs)
  unfolding write_pieces
  piece_run k f f0 f1 ip ip0 ip1 off off0 n1 xs q t w r size_y no_error whole on = rw t (
      rw q (
        rw w (
          rw r (
            rw no_error (
              rw whole (
                ap (λ n. write_pieces sb has dev_read dev_write others k f1 ip1 n (drop n1 xs))
                  on))))))

  piece_panics :
      (k : ℕ) (f f0 : Fs) (ip ip0 : Inode) (off off0 : ℕ) (xs : List ℕ)
      → (length xs == 0) ≡ false
      → others (length xs) (f, ip, off) ≡ (f0, ip0, off0)
      → writei sb has f0 ip0 off0 (take (min (length xs) piece) xs) ≡ panic "balloc: out of blocks"
      → write_pieces sb has dev_read dev_write others (suc k) f ip off xs
        ≡ panic "balloc: out of blocks"
  unfolding write_pieces
  piece_panics k f f0 ip ip0 off off0 xs t w r = rw t (rw w (rw r refl))

  write_pieces-Rewritten :
      (k : ℕ) (f : Fs) (ip : Inode) (off : ℕ) (xs : List ℕ)
      → length xs < k
      → InodeOk sb f ip
      → Foreign sb f ip (iblock sb ip.inum)
      → off ≤ ip.size
      → off + length xs ≤ max_file * bsize
      → All (λ x. x < 256) xs
      → ip.type ≢ t_dev
      → LeaveFile sb others
      → (write_pieces sb has dev_read dev_write others k f ip off xs
          ≡ panic "balloc: out of blocks")
        ⊎ ((f' : Fs) × (ip' : Inode) × (write_pieces sb has dev_read dev_write others k f ip off xs
              ≡ ok (f', ip', off + length xs, true))
            × Rewritten sb f ip off xs f' ip')
  unfolding write_pieces
  write_pieces-Rewritten zero f ip off xs h o out l fits small file leave = absurd (omega arith)
  write_pieces-Rewritten (suc k) f ip off [] h o out l fits small file leave =
      inr
        (f, ip, ap (λ n. ok (f, ip, n, true)) (omega arith), Rewritten-nothing sb f ip off o out l)
  write_pieces-Rewritten (suc k) f ip off (x ∷ xs) h o out l fits small file leave =
      let n1 = min (length (x ∷ xs)) piece in
      let ys = take n1 (x ∷ xs) in
      let zs = drop n1 (x ∷ xs) in
      let s = others (length (x ∷ xs)) (f, ip, off) in
      let left = leave (length (x ∷ xs)) (f, ip, off) o out in
      let size_y : length ys ≡ n1 = omega (arith, length-take n1 (x ∷ xs)) in
      let size_z : length zs ≡ length (x ∷ xs) - n1 = length-drop n1 (x ∷ xs) in
      let t : (length (x ∷ xs) == 0) ≡ false = ground arith in
      let same_size : s.1.size ≡ ip.size = ap (λ (i : Inode). i.size) left.same_fields in
      let same_type : s.1.type ≡ ip.type = ap (λ (i : Inode). i.type) left.same_fields in
      elim (writei_lem sb s.0 s.1 off ys has left.okay left.home (omega arith) (omega arith)
        (All-take n1 (x ∷ xs) small) (λ e. file (sym same_type ∙ e))) [
          | inl (why, r) ↦ elim why [
            | inl a ↦ absurd (omega (arith, a, same_size, l))
            | inr a ↦ absurd (omega (arith, a, size_y, fits))
          ]
          | inr (inside, fits_y, outcome) ↦ elim outcome [
            | inl r ↦
                let r' = ap (λ n. writei sb has s.0 s.1 n ys) left.same_off ∙ r in
                inl (piece_panics k f s.0 ip s.1 off s.2 (x ∷ xs) t refl r')
            | inr (f1, ip1, r, w) ↦
                let r' = ap (λ n. writei sb has s.0 s.1 n ys) left.same_off ∙ r in
                let same : ip1.type ≡ s.1.type = ap (λ (i : Inode). i.type) w.fields in
                let on0 : advance sb has dev_read dev_write off (length ys) ≡ off + n1 =
                  ground (arith, size_y, fits) in
                let on =
                  ap (λ n. advance sb has dev_read dev_write n (length ys)) left.same_off ∙ on0 in
                let no_error : leb (2 ^ 31) (length ys) ≡ false = ground (arith, size_y) in
                let whole : (length ys == n1) ≡ true = ground (arith, size_y) in
                let run =
                  piece_run k f s.0 f1 ip s.1 ip1 off s.2 n1 (x ∷ xs) refl t refl r' size_y no_error
                    whole on in
                let end : off + n1 + length zs ≡ off + length (x ∷ xs) = omega (arith, size_z) in
                elim (write_pieces-Rewritten k f1 ip1 (off + n1) zs (omega (arith, size_z, h))
                  w.okay w.home (ground (arith, w.grows, size_y)) (omega (arith, end, fits))
                  (All-drop n1 (x ∷ xs) small) (λ e. file (sym same_type ∙ sym same ∙ e)) leave) [
                    | inl r2 ↦ inl (run ∙ r2)
                    | inr (f2, ip2, r2, w') ↦ inr (
                      f2,
                      ip2,
                      run ∙ r2 ∙ ap (λ n. ok (f2, ip2, n, true)) end,
                      Rewritten-step sb f s.0 f1 f2 ip s.1 ip1 ip2 off s.2 n1 (x ∷ xs) (omega arith)
                          left w w',
                    )
                  ]
          ]
        ]

  -- `filewrite` to a file that is no device, whose blocks are in use and distinct, and whose inode stands in
  -- a block in use that is none of them, at an offset that is not behind the end, of bytes that fit below
  -- the largest size of a file. It writes them in pieces of 1536 bytes, each with a `writei` of its own,
  -- and others run while it does not hold the lock of the inode; they leave the bytes of the file, its
  -- fields but for the block numbers, and the offset as they are, and its blocks in use and distinct. Then
  -- it returns how many bytes there are, advances the offset by that, and has written all of them over the
  -- bytes from before; and if one `writei` of all the bytes, on the disk and the inode from before the call,
  -- returns a count, it is the same, and it leaves the same bytes, size and other fields. The one other outcome
  -- is the panic for want of a free block; "short filewrite" does not occur.
  pub write_inode-Rewritten :
      (f : Fs) (ip : Inode) (off : ℕ) (xs : List ℕ)
      → InodeOk sb f ip
      → Foreign sb f ip (iblock sb ip.inum)
      → off ≤ ip.size
      → off + length xs ≤ max_file * bsize
      → All (λ x. x < 256) xs
      → ip.type ≢ t_dev
      → LeaveFile sb others
      → (write_inode sb has dev_read dev_write others f ip off xs ≡ panic "balloc: out of blocks")
        ⊎ ((f' : Fs) × (ip' : Inode) × (write_inode sb has dev_read dev_write others f ip off xs
              ≡ ok (f', ip', off + length xs, length xs))
            × Rewritten sb f ip off xs f' ip'
            × ((g : Fs) (jp : Inode) (n : ℕ)
                → writei sb has f ip off xs ≡ ok (g, jp, done n)
                → (n ≡ length xs) × SameFile f' ip' g jp))
  unfolding write_inode
  write_inode-Rewritten f ip off xs o out l fits small file leave =
      elim (write_pieces-Rewritten (length xs + 1) f ip off xs (omega arith) o out l fits small file
        leave) [
          | inl r ↦ inl (rw r refl)
          | inr (f', ip', r, w) ↦ inr (f', ip', rw r refl, w, λ g jp n e. one f' ip' w g jp n e)
        ]
    where
      one :
          (f' : Fs) (ip' : Inode)
          → Rewritten sb f ip off xs f' ip'
          → (g : Fs) (jp : Inode) (n : ℕ) → writei sb has f ip off xs ≡ ok (g, jp, done n)
          → (n ≡ length xs) × SameFile f' ip' g jp
      one f' ip' h g jp n e =
          elim (writei_lem sb f ip off xs has o out (omega arith) (omega arith) small file) [
            | inl (why, r) ↦ cc (r, e)
            | inr (inside, fits_y, outcome) ↦ elim outcome [
              | inl r ↦ cc (r, e)
              | inr (g', jp', r, w) ↦
                  let disk : g' ≡ g = cc (r, e) in
                  let inode : jp' ≡ jp = cc (r, e) in
                  let same = Rewritten-SameFile sb f f' g' ip ip' jp' off xs h w in
                  let count : n ≡ length xs = cc (r, e) in
                  (
                    count,
                    subst (λ k. SameFile f' ip' k jp) disk (subst (SameFile f' ip' g') inode same),
                  )
            ]
          ]
