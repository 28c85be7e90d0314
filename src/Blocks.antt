-- ===== src/Blocks.antt =====
-- fs.c, fs.h: the free map, and the blocks that it hands out.
--
-- A block is read and written whole through the buffer cache and the log; here is the one value that
-- those keep for each block. The device number is left out, and b and bi are ints that stay below 2 ^ 31.
pub mod Bits
pub mod Scan
pub mod Map
pub mod Alloc
mod Tests
use Prim.Native.Nat.{bit_and, bit_or}
use os_assignment.Prelude.{
  ℕ, zero, suc, ◌+◌, ◌-◌, ◌/◌, ◌%◌, ◌^◌, Bool, List, ◌∷◌, Option, none, some, leb, ◌==◌,
  if◌then◌else◌, update, Result, ok, panic,
}

abbrev pub bsize : ℕ
bsize = 512

-- Bits of the free map in a block of it.
abbrev pub bpb : ℕ
bpb = 4096

pub record Super : Type 0 where
  pub size : ℕ
  pub nblocks : ℕ
  pub ninodes : ℕ
  pub nlog : ℕ
  pub logstart : ℕ
  pub inodestart : ℕ
  pub bmapstart : ℕ

-- The bytes of each block, and the calls of `log_write`, the last one first.
pub record Fs : Type 0 where
  pub blocks : ℕ → ℕ → ℕ
  pub logged : List ℕ

-- A block gets new contents and is logged.
abbrev pub put_block : Fs → ℕ → (ℕ → ℕ) → Fs
put_block f b bytes = record { blocks = update f.blocks b bytes; logged = b ∷ f.logged }

-- `data[i/8] & m`, compared with 0, for bit i of a block.
abbrev pub clear_at : (ℕ → ℕ) → ℕ → Bool
clear_at bytes i = bit_and (bytes (i / 8)) (2 ^ (i % 8)) == 0

pub bzero : Fs → ℕ → Fs
bzero f bno = put_block f bno (λ i. 0)

-- The parameter is `sb`.
module _ (sb : Super) where
  abbrev pub bblock : ℕ → ℕ
  bblock b = b / bpb + sb.bmapstart

  -- The inner loop of `balloc` over a block of the free map, with `n` bits left of it: the first bit
  -- that is clear.
  pub scan : (ℕ → ℕ) → ℕ → ℕ → ℕ → Option ℕ
  scan bytes b bi zero = none
  scan bytes b bi (suc n) =
      let rest = scan bytes b (bi + 1) n in
      if leb sb.size (b + bi) then none else if clear_at bytes bi then some bi else rest

  -- `balloc` where bit `bi` of the map's block for `b` is clear.
  pub take_bit : Fs → ℕ → ℕ → Fs × ℕ
  take_bit f b bi =
      let bytes = f.blocks (bblock b) in
      let marked = update bytes (bi / 8) (bit_or (bytes (bi / 8)) (2 ^ (bi % 8))) in
      (bzero (put_block f (bblock b) marked) (b + bi), b + bi)

  -- The outer loop of `balloc`, on fuel.
  pub balloc_from : ℕ → Fs → ℕ → Result (Fs × ℕ)
  balloc_from zero f b = panic "out of fuel"
  balloc_from (suc n) f b =
      let rest = balloc_from n f (b + bpb) in
      if leb sb.size b
      then panic "balloc: out of blocks"
      else elim (scan (f.blocks (bblock b)) b 0 bpb) [
        | none ↦ rest
        | some bi ↦ ok (take_bit f b bi)
      ]

  pub balloc : Fs → Result (Fs × ℕ)
  balloc f = balloc_from (sb.size / bpb + 2) f 0

  pub bfree : Fs → ℕ → Result Fs
  bfree f b =
      let bi = b % bpb in
      let bytes = f.blocks (bblock b) in
      if clear_at bytes bi
      then panic "freeing free block"
      else ok (
          put_block f (bblock b)
            (update bytes (bi / 8) (bit_and (bytes (bi / 8)) (255 - 2 ^ (bi % 8)))))
