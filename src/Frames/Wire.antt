-- ===== src/Frames/Wire.antt =====
-- dragon_voice/audio_codec.py and dragon_voice/video_upstream.py: frames of a magic of four bytes, a
-- length of four bytes, the most significant first, and a body. A byte is a number below 256.
use tinker_box.Base.{
  ℕ, ◌+◌, ◌*◌, Bool, true, false, not, ◌&&◌, ◌||◌, Option, none, some, List, [], ◌∷◌, ltb, ◌==◌,
  if◌then◌else◌, ite, length, take, drop, Text, codes, text_dec, lower,
}

abbrev pub call_audio_magic : List ℕ
call_audio_magic = codes "AUD0"

abbrev pub video_magic : List ℕ
video_magic = codes "VID0"

abbrev pub header_len : ℕ
header_len = 8

abbrev pub same_bytes : List ℕ → List ℕ → Bool
same_bytes a b = ite (text_dec a b) true false

-- `len(data) >= 4 and data[:4] == …`
unfoldable pub peek : List ℕ → List ℕ → Bool
unfolding text_dec
peek magic wire_bytes = not (ltb (length wire_bytes) 4) && same_bytes (take 4 wire_bytes) magic

abbrev pub peek_call_audio_magic : List ℕ → Bool
peek_call_audio_magic = peek call_audio_magic

abbrev pub peek_video : List ℕ → Bool
peek_video = peek video_magic

-- `struct.unpack(">I", …)`, of four bytes
unfoldable pub unpack_be : List ℕ → ℕ
unpack_be (a ∷ b ∷ c ∷ d ∷ []) = a * 16777216 + (b * 65536 + (c * 256 + d))
unpack_be _ = 0

-- The body of a frame; nothing is the ValueError.
unfoldable pub parse_frame : List ℕ → List ℕ → Option (List ℕ)
unfolding unpack_be text_dec
parse_frame magic wire_bytes =
    let n = unpack_be (take 4 (drop 4 wire_bytes)) in
    let body = drop header_len wire_bytes in
    if ltb (length wire_bytes) header_len
    then none
    else if not (same_bytes (take 4 wire_bytes) magic)
    then none
    else if not (length body == n)
    then none
    else some body

abbrev pub parse_call_audio_frame : List ℕ → Option (List ℕ)
parse_call_audio_frame = parse_frame call_audio_magic

abbrev pub parse_video_frame : List ℕ → Option (List ℕ)
parse_video_frame = parse_frame video_magic

abbrev pub wants_opus : List Text → Bool
wants_opus [] = false
wants_opus (c ∷ l) = same_bytes (lower c) (codes "opus") || wants_opus l

-- The codec of the uplink; `have_opus` tells whether the library is there.
unfoldable pub negotiate_uplink : Bool → Option (List Text) → Text
unfolding lower text_dec
negotiate_uplink have_opus none = codes "pcm"
negotiate_uplink have_opus (some l) =
    if wants_opus l && have_opus then codes "opus" else codes "pcm"
