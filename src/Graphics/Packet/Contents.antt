-- ===== src/Graphics/Packet/Contents.antt =====
-- The frames of a command buffer carry its bytes.
use astraea.Prelude.{
  ℕ, zero, suc, ◌+◌, ◌≡◌, refl, sym, ap, ◌∙◌, inl, inr, Option, some, List, [], ◌∷◌, ◌++◌, take,
  drop, Result, success,
}
use astraea.Graphics.Packet.{
  RawPacketWord, Pm4Type3Frame, Pm4Type3FrameError, word_value, frame_pm4_type3_stream,
}
use astraea.Graphics.Packet.Words.{words, bytes_of, bytes_of-words}
use astraea.Graphics.Packet.Framing.{frame_size, Tiles, IsBuffer}
use astraea.Graphics.Packet.Stream.{
  Outcome, total_word_count_lem, Tiles-ap, frame_pm4_type3_stream-Outcome,
}

-- The words that the frames carry.
abbrev pub raw_words_of : List Pm4Type3Frame → List RawPacketWord
raw_words_of [] = []
raw_words_of (f ∷ fs) = f.raw_packet.raw_words ++ raw_words_of fs

take-drop : (n : ℕ) (ws : List RawPacketWord) → take n ws ++ drop n ws ≡ ws
take-drop zero ws = refl
take-drop (suc n) [] = refl
take-drop (suc n) (w ∷ ws) = rw (take-drop n ws)

raw_words_of-Tiles :
    (offset : ℕ) (ws : List RawPacketWord) (fs : List Pm4Type3Frame)
    → Tiles offset ws fs
    → raw_words_of fs ≡ ws
raw_words_of-Tiles offset ws [] t = sym t
raw_words_of-Tiles offset ws (f ∷ fs) ((w, at, kind, size, fields, e), rest) =
    ap (λ g. g.raw_packet.raw_words ++ raw_words_of fs) e
    ∙ ap (λ more. take (frame_size w) ws ++ more)
        (raw_words_of-Tiles (offset + frame_size w) (drop (frame_size w) ws) fs (
          Tiles-ap offset ws fs f.header.total_word_count (frame_size w)
            (ap (λ g. g.header.total_word_count) e ∙ total_word_count_lem (word_value w)) rest))
    ∙ take-drop (frame_size w) ws

stream_tiling :
    (ws : List RawPacketWord) (o : Option (Result (List Pm4Type3Frame) Pm4Type3FrameError))
    (fs : List Pm4Type3Frame)
    → Outcome 0 ws o
    → o ≡ some (success fs)
    → Tiles 0 ws fs
stream_tiling ws o fs (inl (gs, e, t)) h = rw (stream_inj (sym h ∙ e)) t
  where
    stream_inj :
        ◌≡◌ {A = Option (Result (List Pm4Type3Frame) Pm4Type3FrameError)}
          (some (success fs))
          (some (success gs))
        → fs ≡ gs
    stream_inj d = cc
stream_tiling ws o fs (inr (_, e, _, _)) h = cc

-- The words that the frames carry are, in order, the bytes of the buffer.
pub bytes_of-frame_pm4_type3_stream :
    (bytes : List ℕ) (fs : List Pm4Type3Frame)
    → IsBuffer bytes
    → frame_pm4_type3_stream bytes ≡ some (success fs)
    → bytes_of (raw_words_of fs) ≡ bytes
bytes_of-frame_pm4_type3_stream bytes fs buffer h =
    ap bytes_of (
      raw_words_of-Tiles 0 (words bytes) fs (
        stream_tiling (words bytes) (frame_pm4_type3_stream bytes) fs
          (frame_pm4_type3_stream-Outcome bytes buffer) h))
    ∙ bytes_of-words bytes buffer.whole
