-- ===== src/Log/Header.antt =====
-- log.c: the header block, written and read back.
use os_assignment.Prelude.{
  ℕ, ◌+◌, ◌≤◌, ◌<◌, ◌≡◌, refl, List, [], ◌∷◌, arith, length, get_or, set, length-set,
  get_or-set_self, get_or-set_ne, ◌∙◌, ap₂,
}
use os_assignment.Disk.{Block}
use os_assignment.Log.{put_words, put_head, get_words, get_head}

put_words-below :
    (blk : Block) (i j : ℕ) (bs : List ℕ) → j < i → get_or (put_words blk i bs) j 0 ≡ get_or blk j 0
unfolding put_words
put_words-below blk i j [] h = refl
put_words-below blk i j (b ∷ bs) h =
    put_words-below (set blk i b) (i + 1) j bs (omega arith) ∙ get_or-set_ne blk b 0 (omega arith)

get_words-put_words :
    (blk : Block) (i : ℕ) (bs : List ℕ)
    → i + length bs ≤ length blk
    → get_words (put_words blk i bs) i (length bs) ≡ bs
unfolding put_words get_words
get_words-put_words blk i [] h = refl
get_words-put_words blk i (b ∷ bs) h =
    ap₂ ◌∷◌
      (put_words-below (set blk i b) (i + 1) i bs (omega arith)
        ∙ get_or-set_self blk i b 0 (omega arith))
      (get_words-put_words (set blk i b) (i + 1) bs (omega (arith, length-set blk i b)))

-- Reading the header that `write_head` wrote gives the logged block numbers, whatever the block held
-- before, if the numbers and their count fit in it.
pub get_head-put_head :
    (blk : Block) (bs : List ℕ) → length bs < length blk → get_head (put_head blk bs) ≡ bs
unfolding get_head put_head
get_head-put_head blk bs h =
    rw
      (
        put_words-below (set blk 0 (length bs)) 1 0 bs (omega arith),
        get_or-set_self blk 0 (length bs) 0 (omega arith),
      )
      (get_words-put_words (set blk 0 (length bs)) 1 bs
        (omega (arith, length-set blk 0 (length bs))))

length-put_words : (blk : Block) (i : ℕ) (bs : List ℕ) → length (put_words blk i bs) ≡ length blk
unfolding put_words
length-put_words blk i [] = refl
length-put_words blk i (b ∷ bs) = length-put_words (set blk i b) (i + 1) bs ∙ length-set blk i b

pub length-put_head : (blk : Block) (bs : List ℕ) → length (put_head blk bs) ≡ length blk
unfolding put_head
length-put_head blk bs =
    length-put_words (set blk 0 (length bs)) 1 bs ∙ length-set blk 0 (length bs)

-- A cleared header names no block, whatever stood there.
pub get_head-clear : (blk : Block) → get_head (put_head blk []) ≡ []
unfolding get_head put_head put_words get_words
get_head-clear [] = refl
get_head-clear (w ∷ ws) = refl
