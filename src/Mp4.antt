-- ===== src/Mp4.antt =====
-- src/lib/mp4-duration.ts: the bytes of an MP4 file, its boxes, and the readers of the small ones.
-- A buffer is the list of its bytes. The four letters of a box's type are the number that their
-- bytes make. A read outside the buffer throws in the source: it is `none` here.
pub mod Movie
pub mod Fragments
pub mod Scanner
pub mod Feed
pub mod Chunks
pub mod Push
pub mod Memory
pub mod Written
pub mod Tests
use open_live.Prelude.{
  ℕ, zero, suc, ◌+◌, ◌-◌, ◌*◌, Bool, List, [], ◌∷◌, Option, none, some, length, if◌then◌else◌, ltb,
  leb, ◌==◌, nat_eq, ◌||◌,
}

-- The byte at an offset.
unfoldable pub byte_at : List ℕ → ℕ → Option ℕ
byte_at [] at = none
byte_at (b ∷ bs) zero = some b
byte_at (b ∷ bs) (suc at) = byte_at bs at

abbrev pub two_32 : ℕ
two_32 = 4_294_967_296

abbrev pub max_safe_integer : ℕ
max_safe_integer = 9_007_199_254_740_991

abbrev word : Option ℕ → Option ℕ → Option ℕ → Option ℕ → Option ℕ
word (some a) (some b) (some c) (some d) = some (a * 16_777_216 + b * 65536 + c * 256 + d)
word a b c d = none

-- `readUInt32BE`.
unfoldable pub u32_at : List ℕ → ℕ → Option ℕ
unfolding byte_at
u32_at buf at =
    word (byte_at buf at) (byte_at buf (at + 1)) (byte_at buf (at + 2)) (byte_at buf (at + 3))

abbrev pub two_words : Option ℕ → Option ℕ → Option ℕ
two_words (some high) (some low) = some (high * two_32 + low)
two_words high low = none

-- `readBigUInt64BE`.
unfoldable pub u64_at : List ℕ → ℕ → Option ℕ
unfolding u32_at
u64_at buf at = two_words (u32_at buf at) (u32_at buf (at + 4))

-- `start` is past the size and the type; `end` is one past the box.
pub record Box : Type 0 where
  pub kind : ℕ
  pub start : ℕ
  pub finish : ℕ

-- The size of a box and the length of its header, `none` where the box is malformed.
abbrev large_size : Option ℕ → Option (ℕ × ℕ)
large_size none = none
large_size (some large) = if ltb max_safe_integer large then none else some (large, 16)

unfoldable pub box_extent : List ℕ → ℕ → ℕ → ℕ → Option (ℕ × ℕ)
unfolding u64_at
box_extent buf pos to size =
    if size == 1
    then (if ltb to (pos + 16) then none else large_size (u64_at buf (pos + 8)))
    else if size == 0
    then some (to - pos, 8)
    else some (size, 8)

abbrev fits : ℕ → ℕ → Option (ℕ × ℕ) → Option (ℕ × ℕ)
fits pos to none = none
fits pos to (some (size, header)) =
    if ltb size header || ltb to (pos + size) then none else some (size, header)

abbrev sized : List ℕ → ℕ → ℕ → Option ℕ → Option (ℕ × ℕ)
sized buf pos to none = none
sized buf pos to (some size) = fits pos to (box_extent buf pos to size)

abbrev box_of : ℕ → Option ℕ → Option (ℕ × ℕ) → Option (Box × ℕ)
box_of pos (some kind) (some (size, header)) =
    some (record { kind = kind; start = pos + header; finish = pos + size }, pos + size)
box_of pos kind extent = none

-- The box at an offset and the offset of the next one.
unfoldable pub box_at : List ℕ → ℕ → ℕ → Option (Box × ℕ)
unfolding box_extent
box_at buf pos to =
    if ltb to (pos + 8)
    then none
    else box_of pos (u32_at buf (pos + 4)) (sized buf pos to (u32_at buf pos))

-- The boxes from an offset on, up to the first malformed one. A box takes eight bytes at least,
-- so a round for each byte is more than enough.
unfoldable pub boxes_next : (ℕ → List Box) → Option (Box × ℕ) → List Box
boxes_next later none = []
boxes_next later (some (box, next)) = box ∷ later next

unfoldable pub boxes_loop : ℕ → List ℕ → ℕ → ℕ → List Box
unfolding boxes_next
boxes_loop zero buf to pos = []
boxes_loop (suc fuel) buf to pos = boxes_next (boxes_loop fuel buf to) (box_at buf pos to)

unfoldable pub boxes : List ℕ → ℕ → ℕ → List Box
unfolding boxes_loop box_at
boxes buf from to = boxes_loop (to - from) buf to from

unfoldable pub first_of : ℕ → List Box → Option Box
first_of kind [] = none
first_of kind (box ∷ rest) = if box.kind == kind then some box else first_of kind rest

unfoldable pub child : List ℕ → Box → ℕ → Option Box
unfolding boxes first_of
child buf parent kind = first_of kind (boxes buf parent.start parent.finish)

abbrev pub moov : ℕ
moov = 0x6d6f6f76

abbrev pub moof : ℕ
moof = 0x6d6f6f66

abbrev pub mvhd : ℕ
mvhd = 0x6d766864

abbrev pub mvex : ℕ
mvex = 0x6d766578

abbrev pub mehd : ℕ
mehd = 0x6d656864

abbrev pub trak : ℕ
trak = 0x7472616b

abbrev pub tkhd : ℕ
tkhd = 0x746b6864

abbrev pub mdia : ℕ
mdia = 0x6d646961

abbrev pub mdhd : ℕ
mdhd = 0x6d646864

abbrev pub trex : ℕ
trex = 0x74726578

abbrev pub traf : ℕ
traf = 0x74726166

abbrev pub tfhd : ℕ
tfhd = 0x74666864

abbrev pub trun : ℕ
trun = 0x7472756e
