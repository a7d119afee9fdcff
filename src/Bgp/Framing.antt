-- ===== src/Bgp/Framing.antt =====
-- src/bgp/mod.rs: `write_bgp_message` and `read_bgp_message`. A connection is the bytes that are
-- still to come, up to the end of the stream; the codec is bgpkit-parser's.
pub mod Frames
use Prim.Native.String.{◌++◌}
use focl.Base.{
  ℕ, ◌+◌, ◌-◌, ◌*◌, String, Bool, true, false, not, ◌&&◌, ◌||◌, List, [], ◌∷◌, ltb, leb, ◌==◌,
  if◌then◌else◌, length, take, drop, replicate, Result, ok, err, ◌>>=◌,
}
use mathlib.Core.List.{◌++◌ as append}
use focl.Base.Text.{decimal}
use focl.Bgp.{BgpMessage}

-- `BgpMessage::encode` at 32-bit AS numbers, and `parse_bgp_message` at both lengths.
pub record Codec : Type 0 where
  pub encode : BgpMessage → List ℕ
  pub parse_32 : List ℕ → Result BgpMessage
  pub parse_16 : List ℕ → Result BgpMessage

abbrev pub header_len : ℕ
header_len = 19

abbrev pub max_len : ℕ
max_len = 4096

abbrev pub marker : List ℕ
marker = replicate 16 255

unfoldable pub bytes_eq : List ℕ → List ℕ → Bool
bytes_eq [] [] = true
bytes_eq (x ∷ xs) (y ∷ ys) = x == y && bytes_eq xs ys
bytes_eq _ _ = false

-- The bytes that `write_bgp_message` puts on the wire.
unfoldable pub write_bgp_message : Codec → BgpMessage → Result (List ℕ)
write_bgp_message codec msg =
    let bytes = codec.encode msg in
    if ltb (length bytes) header_len
    then err "encoded BGP message too short"
    else ok (append marker (drop 16 bytes))

-- `read_exact` of `n` bytes: the bytes and the rest, or the end of the stream.
unfoldable pub read_exact : ℕ → List ℕ → Result (List ℕ) × List ℕ
read_exact n input =
    if ltb (length input) n then (err "early eof", []) else (ok (take n input), drop n input)

-- `u16::from_be_bytes([header[16], header[17]])`
be16 : List ℕ → ℕ
be16 (a ∷ b ∷ _) = a * 256 + b
be16 (a ∷ []) = 0
be16 [] = 0

unfoldable pub length_field : List ℕ → ℕ
unfolding be16
length_field header = be16 (drop 16 header)

-- The parser is tried with 32-bit AS numbers, then with 16-bit ones.
unfoldable pub parse : Codec → List ℕ → Result BgpMessage
parse codec bytes = elim (codec.parse_32 bytes) [
  | ok msg ↦ ok msg
  | err _ ↦ elim (codec.parse_16 bytes) [
    | ok msg ↦ ok msg
    | err e ↦ err ("failed parsing BGP message using bgpkit-parser: " ++ e)
  ]
]

-- The body behind a header of the length that the header states.
read_payload : Codec → List ℕ → ℕ → List ℕ → Result BgpMessage × List ℕ
read_payload codec header len input =
    let (payload, rest) = read_exact (len - header_len) input in
    (payload >>= (λ p. parse codec (append header p)), rest)

-- The checks of a header, then the body.
unfoldable pub read_body : Codec → List ℕ → List ℕ → Result BgpMessage × List ℕ
unfolding read_payload
read_body codec header input =
    let len = length_field header in
    if not (bytes_eq (take 16 header) marker)
    then (err "invalid BGP marker", input)
    else if not (leb header_len len && leb len max_len)
    then (err ("invalid BGP message length " ++ decimal len), input)
    else read_payload codec header len input

after_header : Codec → Result (List ℕ) × List ℕ → Result BgpMessage × List ℕ
after_header codec (ok header, rest) = read_body codec header rest
after_header codec (err e, rest) = (err e, rest)

unfoldable pub read_bgp_message : Codec → List ℕ → Result BgpMessage × List ℕ
unfolding after_header
read_bgp_message codec input = after_header codec (read_exact header_len input)
