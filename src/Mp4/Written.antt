-- ===== src/Mp4/Written.antt =====
-- src/lib/mp4-duration.ts: boxes as a muxer writes them, with a size of four bytes, and what `boxes`
-- reads back.
use open_live.Prelude.{
  ℕ, suc, zero, ◌+◌, ◌-◌, ◌/◌, ◌%◌, ◌≤◌, ◌<◌, List, [], ◌∷◌, ◌++◌, none, some, ◌≡◌, refl, ap, sym,
  ◌∙◌, subst, lt→ltb, arith, nat_eq, length, length-append, append_assoc,
}
use open_live.Mp4.{byte_at, u32_at, two_32, Box, box_extent, box_at, boxes_next, boxes_loop, boxes}

abbrev pub u32_bytes : ℕ → List ℕ
u32_bytes n = n / 16_777_216 % 256 ∷ n / 65536 % 256 ∷ n / 256 % 256 ∷ n % 256 ∷ []

pub record Payload : Type 0 where
  pub kind : ℕ
  pub bytes : List ℕ

abbrev pub box_bytes : Payload → List ℕ
box_bytes p = u32_bytes (8 + length p.bytes) ++ u32_bytes p.kind ++ p.bytes

abbrev pub file_bytes : List Payload → List ℕ
file_bytes [] = []
file_bytes (p ∷ ps) = box_bytes p ++ file_bytes ps

-- Where the boxes of a file lie.
abbrev pub layout : ℕ → List Payload → List Box
layout at [] = []
layout at (p ∷ ps) =
    record { kind = p.kind; start = at + 8; finish = at + (8 + length p.bytes) }
    ∷ layout (at + (8 + length p.bytes)) ps

-- Sizes and types that four bytes can hold.
pub record IsSmall (p : Payload) : Type 0 where
  pub size : 8 + length p.bytes < two_32
  pub kind : p.kind < two_32

abbrev pub AllSmall : List Payload → Type 0
AllSmall [] = Unit {0}
AllSmall (p ∷ ps) = IsSmall p × AllSmall ps

byte_at-after : (pre xs : List ℕ) (i : ℕ) → byte_at (pre ++ xs) (length pre + i) ≡ byte_at xs i
unfolding byte_at
byte_at-after [] xs i = ap (byte_at xs) (omega arith)
byte_at-after (b ∷ pre) xs i =
    let e : length (b ∷ pre) + i ≡ suc (length pre + i) = omega arith in
    ap (byte_at (b ∷ pre ++ xs)) e ∙ byte_at-after pre xs i

u32_at-after : (pre xs : List ℕ) (i : ℕ) → u32_at (pre ++ xs) (length pre + i) ≡ u32_at xs i
unfolding u32_at
u32_at-after pre xs i =
    rw (shift 1 (omega arith), shift 2 (omega arith), shift 3 (omega arith), byte_at-after pre xs i)
      refl
  where
    shift :
        (k : ℕ)
        → length pre + i + k ≡ length pre + (i + k)
        → byte_at (pre ++ xs) (length pre + i + k) ≡ byte_at xs (i + k)
    shift k e = ap (byte_at (pre ++ xs)) e ∙ byte_at-after pre xs (i + k)

u32_at-bytes : (n : ℕ) (xs : List ℕ) → n < two_32 → u32_at (u32_bytes n ++ xs) 0 ≡ some n
unfolding u32_at byte_at
u32_at-bytes n xs h = ap some (omega arith)

module _ (pre rest : List ℕ) (p : Payload) (small : IsSmall p) where
  written_size : u32_at (pre ++ (box_bytes p ++ rest)) (length pre) ≡ some (8 + length p.bytes)
  written_size =
      ap (u32_at (pre ++ (box_bytes p ++ rest))) (omega arith)
      ∙ (u32_at-after pre (box_bytes p ++ rest) 0 ∙ u32_at-bytes (8 + length p.bytes) _ small.size)

  written_kind : u32_at (pre ++ (box_bytes p ++ rest)) (length pre + 4) ≡ some p.kind
  written_kind =
      u32_at-after pre (box_bytes p ++ rest) 4
      ∙ (u32_at-after (u32_bytes (8 + length p.bytes)) ((u32_bytes p.kind ++ p.bytes) ++ rest) 0
          ∙ u32_at-bytes p.kind _ small.kind)

  box_at-written :
      (to : ℕ)
      → length pre + (8 + length p.bytes) ≤ to
      → box_at (pre ++ (box_bytes p ++ rest)) (length pre) to
        ≡ some (
          record {
            kind = p.kind;
            start = length pre + 8;
            finish = length pre + (8 + length p.bytes);
          },
          length pre + (8 + length p.bytes),
        )
  unfolding box_at box_extent
  box_at-written to fit = rw (written_size, written_kind) (ground arith)

length-box_bytes : (p : Payload) → length (box_bytes p) ≡ 8 + length p.bytes
length-box_bytes p = omega arith

box_at-end : (buf : List ℕ) (pos to : ℕ) → to ≡ pos → box_at buf pos to ≡ none
unfolding box_at
box_at-end buf pos to e = rw (lt→ltb to (pos + 8) (omega arith)) refl

boxes_loop-written :
    (ps : List Payload) (pre : List ℕ) (fuel to : ℕ)
    → AllSmall ps
    → length pre + length (file_bytes ps) ≡ to
    → length (file_bytes ps) ≤ fuel
    → boxes_loop fuel (pre ++ file_bytes ps) to (length pre) ≡ layout (length pre) ps
unfolding boxes_loop boxes_next
boxes_loop-written [] pre zero to small e enough = refl
boxes_loop-written [] pre (suc fuel) to small e enough =
    ap (boxes_next (boxes_loop fuel (pre ++ []) to))
      (box_at-end (pre ++ []) (length pre) to (omega arith))
boxes_loop-written (p ∷ ps) pre zero to small e enough = absurd (omega arith)
boxes_loop-written (p ∷ ps) pre (suc fuel) to (small, others) e enough =
    let size = length-append (box_bytes p) (file_bytes ps) in
    let before = length-append pre (box_bytes p) in
    let buf = (pre ++ box_bytes p) ++ file_bytes ps in
    let here = length pre + (8 + length p.bytes) in
    ap (boxes_next (boxes_loop fuel (pre ++ file_bytes (p ∷ ps)) to))
      (box_at-written pre (file_bytes ps) p small to (omega arith))
    ∙ ap (λ bs. record { kind = p.kind; start = length pre + 8; finish = here } ∷ bs)
        (ap (λ b. boxes_loop fuel b to here) (sym (append_assoc pre (box_bytes p) (file_bytes ps)))
          ∙ subst (λ at. boxes_loop fuel buf to at ≡ layout at ps) (omega (arith, before))
              (boxes_loop-written ps (pre ++ box_bytes p) fuel to others
                (omega (arith, size, before)) (omega (arith, size))))

-- A file of boxes whose sizes and types fit four bytes is read back as those boxes, in order, each
-- at its place and none besides.
pub boxes-file_bytes :
    (ps : List Payload)
    → AllSmall ps
    → boxes (file_bytes ps) 0 (length (file_bytes ps)) ≡ layout 0 ps
unfolding boxes
boxes-file_bytes ps small =
    boxes_loop-written ps [] (length (file_bytes ps) - 0) (length (file_bytes ps)) small
      (omega arith) (omega arith)
