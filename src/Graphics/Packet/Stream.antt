-- ===== src/Graphics/Packet/Stream.antt =====
-- The loop of frame_pm4_type3_stream: the frames it returns, and why it returns none.
use astraea.Prelude.{
  ==→ne, ltb→le, leb→lt, eq→==, le→ltb, ℕ, zero, suc, ◌+◌, ◌/◌, ◌%◌, ◌≤◌, ◌<◌, ◌≡◌, refl, sym, ap,
  ◌∙◌, ◌≢◌, ◌⊎◌, inl, inr, Option, some, List, [], ◌∷◌, arith, ltb, leb, ◌==◌, ltb→lt, lt→ltb,
  leb→le, ==_iff, Bool-cases, length, get_elem?, drop, get_elem?-lt, Result, success, failure,
}
use astraea.Graphics.Packet.{
  RawPacketWord, Pm4Type3Frame, Pm4Type3FrameError, word_value, header_type_of, type3_header,
  encoded_count_of, frame_at, frame_loop, frame_pm4_type3_stream, unsupported_packet_type,
  truncated_packet,
}
use astraea.Graphics.Packet.Words.{words, length-words}
use astraea.Graphics.Packet.Framing.{
  frame_size, frame_of, IsFrame, type3_header_lem, Tiles, IsBuffer, frame_fits, refusal,
  type_refused, size_refused, drop-drop, get_elem?-drop,
}

-- A tiling, or one of two refusals when there is none.
abbrev pub Outcome :
    ℕ → List RawPacketWord → Option (Result (List Pm4Type3Frame) Pm4Type3FrameError) → Type 0
Outcome offset ws o =
    ((fs : List Pm4Type3Frame) × (o ≡ some (success fs)) × Tiles offset ws fs)
    ⊎ ((e : Pm4Type3FrameError) × (o ≡ some (failure e))
        × ((e.code ≡ unsupported_packet_type) ⊎ (e.code ≡ truncated_packet))
        × (¬ ((fs : List Pm4Type3Frame) × Tiles offset ws fs)))

pub total_word_count_lem : (v : ℕ) → (type3_header v).total_word_count ≡ encoded_count_of v + 2
unfolding type3_header
total_word_count_lem v = refl

-- The words determine the frame at their head.
frame_of_head :
    (offset : ℕ) (ws : List RawPacketWord) (w : RawPacketWord) (f : Pm4Type3Frame)
    → get_elem? ws 0 ≡ some w
    → IsFrame offset ws f
    → (header_type_of (word_value w) ≡ 3) × (frame_size w ≤ length ws) × (f ≡ frame_of offset ws w)
frame_of_head offset ws w f here (v, there, t, size, fields, e) =
    subst_head (some_inj (sym there ∙ here))
  where
    some_inj : some v ≡ some w → v ≡ w
    some_inj h = cc

    subst_head :
        v ≡ w
        → (header_type_of (word_value w) ≡ 3)
          × (frame_size w ≤ length ws)
          × (f ≡ frame_of offset ws w)
    subst_head h = rw (sym h) (t, size, e)

no_tiling :
    (offset : ℕ) (ws : List RawPacketWord) (w : RawPacketWord)
    → get_elem? ws 0 ≡ some w
    → ((header_type_of (word_value w) ≢ 3) ⊎ (length ws < frame_size w))
    → ¬ ((fs : List Pm4Type3Frame) × Tiles offset ws fs)
no_tiling offset [] w here h (fs, t) = cc
no_tiling offset (x ∷ xs) w here h ([], t) = cc
no_tiling offset (x ∷ xs) w here h (f ∷ fs, (head, rest)) =
    let (t, size, e) = frame_of_head offset (x ∷ xs) w f here head in
    elim h [ inl other ↦ other t | inr short ↦ omega (arith, size, short) ]

pub Tiles-ap :
    (offset : ℕ) (ws : List RawPacketWord) (fs : List Pm4Type3Frame) (m n : ℕ)
    → m ≡ n
    → Tiles (offset + m) (drop m ws) fs
    → Tiles (offset + n) (drop n ws) fs
Tiles-ap offset ws fs m n e t = rw (sym e) t

module _ (bytes : List ℕ) (buffer : IsBuffer bytes) (offset : ℕ) (w : RawPacketWord)
    (here : get_elem? (drop offset (words bytes)) 0 ≡ some w) where
  next_tiling :
      (f : Pm4Type3Frame) (fs : List Pm4Type3Frame)
      → f ≡ frame_of offset (drop offset (words bytes)) w
      → Tiles
          (offset + f.header.total_word_count)
          (drop f.header.total_word_count (drop offset (words bytes)))
          fs
      → Tiles (offset + frame_size w) (drop (offset + frame_size w) (words bytes)) fs
  next_tiling f fs e t = rw (sym (drop-drop offset (frame_size w) (words bytes))) (
      Tiles-ap offset (drop offset (words bytes)) fs f.header.total_word_count (frame_size w)
        (ap (λ g. g.header.total_word_count) e ∙ total_word_count_lem (word_value w)) t)

  this_tiling :
      (fs : List Pm4Type3Frame)
      → header_type_of (word_value w) ≡ 3
      → frame_size w ≤ length (drop offset (words bytes))
      → Tiles (offset + frame_size w) (drop (offset + frame_size w) (words bytes)) fs
      → Tiles offset
          (drop offset (words bytes))
          (frame_of offset (drop offset (words bytes)) w ∷ fs)
  this_tiling fs t size rest = (
    (w, here, t, size, type3_header_lem (word_value w), refl),
    Tiles-ap offset (drop offset (words bytes)) fs (frame_size w)
        (type3_header (word_value w)).total_word_count (sym (total_word_count_lem (word_value w)))
        (rw (drop-drop offset (frame_size w) (words bytes)) rest),
  )

  refused_round :
      (fuel : ℕ) (e : Pm4Type3FrameError)
      → frame_at bytes (length bytes / 4) offset ≡ some (failure e)
      → offset < length bytes / 4
      → ((header_type_of (word_value w) ≢ 3) ⊎ (length (drop offset (words bytes)) < frame_size w))
      → ((e.code ≡ unsupported_packet_type) ⊎ (e.code ≡ truncated_packet))
      → Outcome offset
          (drop offset (words bytes))
          (frame_loop bytes (length bytes / 4) (suc fuel) offset)
  unfolding frame_loop
  refused_round fuel e at inside why code = inr (
    e,
    rw (frame_loop, lt→ltb offset (length bytes / 4) inside, at),
    code,
    no_tiling offset (drop offset (words bytes)) w here why,
  )

  framed_round :
      (fuel : ℕ)
      → offset < length bytes / 4
      → header_type_of (word_value w) ≡ 3
      → frame_size w ≤ length (drop offset (words bytes))
      → Outcome
          (offset + frame_size w)
          (drop (offset + frame_size w) (words bytes))
          (frame_loop bytes (length bytes / 4) fuel (offset + frame_size w))
      → Outcome offset
          (drop offset (words bytes))
          (frame_loop bytes (length bytes / 4) (suc fuel) offset)
  unfolding frame_loop type3_header encoded_count_of
  framed_round fuel inside t size (inl (fs, rest, tiles)) = inl (
    frame_of offset (drop offset (words bytes)) w ∷ fs,
    rw (
      frame_loop,
      lt→ltb offset (length bytes / 4) inside,
      frame_fits bytes buffer offset w here t size,
      total_word_count_lem (word_value w),
      rest,
    ),
    this_tiling fs t size tiles,
  )
  framed_round fuel inside t size (inr (e, rest, code, none_tiles)) = inr (
    e,
    rw (
      frame_loop,
      lt→ltb offset (length bytes / 4) inside,
      frame_fits bytes buffer offset w here t size,
      total_word_count_lem (word_value w),
      rest,
    ),
    code,
    refuted,
  )
    where
      refuted : ¬ ((fs : List Pm4Type3Frame) × Tiles offset (drop offset (words bytes)) fs)
      refuted ([], tiles) = cc
      refuted (f ∷ fs, (head, tiles)) =
          let (_, _, e) = frame_of_head offset (drop offset (words bytes)) w f here head in
          none_tiles (fs, next_tiling f fs e tiles)

  round :
      (fuel : ℕ)
      → offset < length bytes / 4
      → Outcome
          (offset + frame_size w)
          (drop (offset + frame_size w) (words bytes))
          (frame_loop bytes (length bytes / 4) fuel (offset + frame_size w))
      → Outcome offset
          (drop offset (words bytes))
          (frame_loop bytes (length bytes / 4) (suc fuel) offset)
  round fuel inside later = elim (Bool-cases (header_type_of (word_value w) == 3)) [
    | inl t ↦ elim (Bool-cases (leb (frame_size w) (length (drop offset (words bytes))))) [
      | inl size ↦
          framed_round fuel inside ((==_iff (header_type_of (word_value w)) 3).0 t)
            (leb→le (frame_size w) (length (drop offset (words bytes))) size) later
      | inr short ↦
          refused_round fuel (refusal bytes buffer offset w here truncated_packet (frame_size w))
            (size_refused bytes buffer offset w here
              ((==_iff (header_type_of (word_value w)) 3).0 t)
              (leb→lt (frame_size w) (length (drop offset (words bytes))) short))
            inside (inr (leb→lt (frame_size w) (length (drop offset (words bytes))) short))
            (inr refl)
    ]
    | inr t ↦
        refused_round fuel (refusal bytes buffer offset w here unsupported_packet_type 1)
          (type_refused bytes buffer offset w here (==→ne (header_type_of (word_value w)) 3 t))
          inside (inl (==→ne (header_type_of (word_value w)) 3 t)) (inl refl)
  ]

drop_all : (n : ℕ) (ws : List RawPacketWord) → length ws ≤ n → drop n ws ≡ []
drop_all zero [] h = refl
drop_all (suc n) [] h = refl
drop_all zero (w ∷ ws) h = absurd (omega arith)
drop_all (suc n) (w ∷ ws) h = drop_all n ws (omega arith)

finished :
    (bytes : List ℕ) (fuel offset : ℕ)
    → length (words bytes) ≤ offset
    → Outcome offset (drop offset (words bytes)) (frame_loop bytes (length bytes / 4) fuel offset)
unfolding frame_loop
finished bytes zero offset h = inl (
  [],
  rw (frame_loop, le→ltb offset (length bytes / 4) (omega (arith, h, length-words bytes))),
  drop_all offset (words bytes) h,
)
finished bytes (suc fuel) offset h = inl (
  [],
  rw (frame_loop, le→ltb offset (length bytes / 4) (omega (arith, h, length-words bytes))),
  drop_all offset (words bytes) h,
)

frame_loop-Outcome :
    (bytes : List ℕ)
    → IsBuffer bytes
    → (fuel offset : ℕ) → length (words bytes) ≤ offset + fuel
    → Outcome offset (drop offset (words bytes)) (frame_loop bytes (length bytes / 4) fuel offset)
frame_loop-Outcome bytes buffer zero offset enough = finished bytes zero offset (omega arith)
frame_loop-Outcome bytes buffer (suc fuel) offset enough =
    elim (Bool-cases (ltb offset (length bytes / 4))) [
      | inl h ↦
          let inside : offset < length bytes / 4 = ltb→lt offset (length bytes / 4) h in
          let (w, at) =
            get_elem?-lt (words bytes) offset (omega (arith, inside, length-words bytes)) in
          round bytes buffer offset w (get_elem?-drop offset (words bytes) ∙ at) fuel inside
            (frame_loop-Outcome bytes buffer fuel (offset + frame_size w) (omega arith))
      | inr h ↦
          finished bytes (suc fuel) offset
            (omega (arith, length-words bytes, ltb→le offset (length bytes / 4) h))
    ]

-- On whole words the call returns frames that use up the buffer, each the one that its header word
-- names; or it refuses because a header is not of type 3 or a frame is cut short, and then no list
-- of frames uses up the buffer. It never reads outside the buffer.
pub frame_pm4_type3_stream-Outcome :
    (bytes : List ℕ) → IsBuffer bytes → Outcome 0 (words bytes) (frame_pm4_type3_stream bytes)
unfolding frame_pm4_type3_stream
frame_pm4_type3_stream-Outcome bytes buffer =
    rw (eq→== (length bytes % 4) 0 buffer.whole)
      (frame_loop-Outcome bytes buffer (length bytes / 4) 0 (omega (arith, length-words bytes)))
