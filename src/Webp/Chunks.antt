-- ===== src/Webp/Chunks.antt =====
-- The walk over the chunks of a WebP file reads back what was written, and its fuel suffices.
use mathlib.Core.List.{append_assoc}
use synapse_media_worker.Base.{
  ℕ, zero, suc, ◌+◌, ◌/◌, ◌%◌, ◌≤◌, ◌<◌, ◌^◌, ◌≡◌, refl, ap, ◌∙◌, true, false, List, [], ◌∷◌, ◌++◌,
  ◌==◌, if◌then◌else◌, Bytes, length, drop, length-drop, length-append, take_of_append,
  drop_of_append, All, arith, Bool-cases, inl, inr,
}
use synapse_media_worker.Webp.{
  uint32_at, put_uint32, WebpChunk, front_chunk, after_chunk, has_chunk, walk_chunks,
  frame_payload_chunks, raw_chunk,
}

pub length-after_chunk : (s : Bytes) → has_chunk s ≡ true → length (after_chunk s) + 8 ≤ length s
unfolding has_chunk after_chunk
length-after_chunk s h =
    let one = length-drop (uint32_at s 4 % 2) (drop (uint32_at s 4) (drop 8 s)) in
    let two = length-drop (uint32_at s 4) (drop 8 s) in let three = length-drop 8 s in ground arith

has_chunk-short : (s : Bytes) → length s ≤ 0 → has_chunk s ≡ false
unfolding has_chunk
has_chunk-short s h = ground arith

-- More fuel than bytes changes nothing.
walk_chunks-fuel :
    (f g : ℕ) (s : Bytes) → length s ≤ f → length s ≤ g → walk_chunks f s ≡ walk_chunks g s
unfolding walk_chunks
walk_chunks-fuel zero zero s h k = refl
walk_chunks-fuel zero (suc g) s h k = rw (has_chunk-short s h) refl
walk_chunks-fuel (suc f) zero s h k = rw (has_chunk-short s k) refl
walk_chunks-fuel (suc f) (suc g) s h k = elim (Bool-cases (has_chunk s)) [
  | inl there ↦
      let shorter = length-after_chunk s there in
      rw (there, walk_chunks-fuel f g (after_chunk s) (omega arith) (omega arith)) refl
  | inr end ↦ rw end refl
]

-- The walk ends at the first place where no whole chunk is left and else takes one chunk and goes on
-- behind it, whatever the lengths in the file say: its fuel, the number of bytes, never runs out.
pub frame_payload_chunks_lem :
    (s : Bytes)
    → frame_payload_chunks s
      ≡ (if has_chunk s then front_chunk s ∷ frame_payload_chunks (after_chunk s) else [])
unfolding frame_payload_chunks walk_chunks
frame_payload_chunks_lem s =
    let more = walk_chunks-fuel (length s) (suc (length s)) s (omega arith) (omega arith) in
    elim (Bool-cases (has_chunk s)) [
      | inl there ↦
          let shorter = length-after_chunk s there in
          let less =
            walk_chunks-fuel (length s) (length (after_chunk s)) (after_chunk s) (omega arith)
              (omega arith) in
          more ∙ rw (there, less) refl
      | inr end ↦ more ∙ rw end refl
    ]

-- A chunk that a file can hold: a name of four bytes and a payload that 32 bits measure.
abbrev pub IsChunk : WebpChunk → Type 0
IsChunk c = (length c.four_cc ≡ 4) × (length c.payload < 2 ^ 32)

uint32_at-put_uint32 :
    (a b c d n : ℕ) (s : Bytes) → n < 2 ^ 32 → uint32_at (a ∷ b ∷ c ∷ d ∷ put_uint32 n ++ s) 4 ≡ n
unfolding uint32_at put_uint32
uint32_at-put_uint32 a b c d n s h = omega arith

abbrev padding : ℕ → Bytes
padding n = if n % 2 == 1 then 0 ∷ [] else []

length-padding : (n : ℕ) → length (padding n) ≡ n % 2
length-padding n = ground arith

drop-padding : (n : ℕ) (rest : Bytes) → drop (n % 2) (padding n ++ rest) ≡ rest
drop-padding n rest = elim (Bool-cases (n % 2 == 1)) [
  | inl odd ↦ let e : n % 2 ≡ 1 = ground arith in rw (e) refl
  | inr even ↦ let e : n % 2 ≡ 0 = ground arith in rw (e) refl
]

-- A chunk in its pieces, the size in the bytes `w` to `z`.
module _ (a b c d w x y z : ℕ) (payload rest : Bytes)
    (measured : uint32_at
        (a ∷ b ∷ c ∷ d ∷ w ∷ x ∷ y ∷ z ∷ payload ++ (padding (length payload) ++ rest))
        4
      ≡ length payload) where
  abbrev written : Bytes
  written = a ∷ b ∷ c ∷ d ∷ w ∷ x ∷ y ∷ z ∷ payload ++ (padding (length payload) ++ rest)

  has_chunk-written : has_chunk written ≡ true
  unfolding has_chunk
  has_chunk-written =
      let one = length-append payload (padding (length payload) ++ rest) in
      let two = length-append (padding (length payload)) rest in rw (measured) (ground arith)

  front_chunk-written :
      front_chunk written ≡ record { four_cc = a ∷ b ∷ c ∷ d ∷ []; payload = payload }
  unfolding front_chunk
  front_chunk-written =
      rw (measured, take_of_append payload (padding (length payload) ++ rest)) refl

  after_chunk-written : after_chunk written ≡ rest
  unfolding after_chunk
  after_chunk-written =
      rw (measured, drop_of_append payload (padding (length payload) ++ rest))
        (drop-padding (length payload) rest)

-- The walk over a written chunk and what follows it.
module _ (payload rest : Bytes) (small : length payload < 2 ^ 32) where
  walk_of_pieces :
      (name : Bytes)
      → length name ≡ 4
      → frame_payload_chunks
          (name ++ (put_uint32 (length payload) ++ (payload ++ (padding (length payload) ++ rest))))
        ≡ record { four_cc = name; payload = payload } ∷ frame_payload_chunks rest
  unfolding put_uint32
  walk_of_pieces (a ∷ b ∷ c ∷ d ∷ []) e =
      let n = length payload in
      let measured = uint32_at-put_uint32 a b c d n (payload ++ (padding n ++ rest)) small in
      frame_payload_chunks_lem (
        written a b c d (n % 256) (n / 256 % 256) (n / 65536 % 256) (n / 16777216 % 256) payload
          rest measured)
      ∙ rw
          (
            has_chunk-written a b c d _ _ _ _ payload rest measured,
            front_chunk-written a b c d _ _ _ _ payload rest measured,
            after_chunk-written a b c d _ _ _ _ payload rest measured,
          )
          refl
  walk_of_pieces [] e = absurd (omega arith)
  walk_of_pieces (a ∷ []) e = absurd (omega arith)
  walk_of_pieces (a ∷ b ∷ []) e = absurd (omega arith)
  walk_of_pieces (a ∷ b ∷ c ∷ []) e = absurd (omega arith)
  walk_of_pieces (a ∷ b ∷ c ∷ d ∷ x ∷ name) e = absurd (omega arith)

pub frame_payload_chunks-raw_chunk :
    (c : WebpChunk) (rest : Bytes)
    → IsChunk c
    → frame_payload_chunks (raw_chunk c ++ rest) ≡ c ∷ frame_payload_chunks rest
unfolding raw_chunk
frame_payload_chunks-raw_chunk c rest (name, small) =
    simp (append_assoc) (walk_of_pieces c.payload rest small c.four_cc name)

-- A sequence of chunks, one after the other.
unfoldable pub raw_chunks : List WebpChunk → Bytes
raw_chunks [] = []
raw_chunks (c ∷ chunks) = raw_chunk c ++ raw_chunks chunks

-- Reading chunks back: what was written chunk by chunk, each with a name of four bytes and a payload
-- below 2^32 bytes, is read as those chunks, whether their lengths are even or odd.
pub frame_payload_chunks-raw_chunks :
    (chunks : List WebpChunk)
    → All IsChunk chunks
    → frame_payload_chunks (raw_chunks chunks) ≡ chunks
unfolding raw_chunks has_chunk
frame_payload_chunks-raw_chunks [] h = frame_payload_chunks_lem []
frame_payload_chunks-raw_chunks (c ∷ chunks) (h, k) =
    frame_payload_chunks-raw_chunk c (raw_chunks chunks) h
    ∙ ap (λ rest. c ∷ rest) (frame_payload_chunks-raw_chunks chunks k)
