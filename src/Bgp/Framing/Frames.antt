-- ===== src/Bgp/Framing/Frames.antt =====
-- src/bgp/mod.rs: a message that is written is read back, and what is read was a whole frame.
use mathlib.Core.List.{append_assoc}
use focl.Base.{
  ℕ, zero, suc, ◌+◌, ◌-◌, ◌*◌, ◌≤◌, true, ◌≡◌, refl, sym, ap, ◌∙◌, List, [], ◌∷◌, ◌++◌, arith,
  length, length-append, take, drop, ok,
}
use focl.Bgp.{BgpMessage}
use focl.Bgp.Framing.{
  Codec, marker, header_len, max_len, bytes_eq, write_bgp_message, read_exact, length_field, be16,
  parse, read_payload, read_body, read_bgp_message,
}

-- What is documented of the encoder: a message has between 19 and 4096 bytes, holds its length
-- behind the marker, and parses back once the marker is set.
pub record Encodes (codec : Codec) (msg : BgpMessage) : Type 0 where
  pub least : header_len ≤ length (codec.encode msg)
  pub most : length (codec.encode msg) ≤ max_len
  pub stated : length_field (codec.encode msg) ≡ length (codec.encode msg)
  pub parses : codec.parse_32 (marker ++ drop 16 (codec.encode msg)) ≡ ok msg

take-append : (n : ℕ) (xs ys : List ℕ) → n ≡ length xs → take n (xs ++ ys) ≡ xs
take-append n [] ys e = rw e
take-append n (x ∷ xs) ys e = rw e (ap (◌∷◌ x) (take-append (length xs) xs ys refl))

drop-append : (n : ℕ) (xs ys : List ℕ) → n ≡ length xs → drop n (xs ++ ys) ≡ ys
drop-append n [] ys e = rw e
drop-append n (x ∷ xs) ys e = rw e (drop-append (length xs) xs ys refl)

read_exact-append : (n : ℕ) (xs ys : List ℕ) → n ≡ length xs → read_exact n (xs ++ ys) ≡ (ok xs, ys)
unfolding read_exact
read_exact-append n xs ys e =
    ground (arith, length-append {0} xs ys, take-append n xs ys e, drop-append n xs ys e)

bytes_eq_refl : (xs : List ℕ) → bytes_eq xs xs ≡ true
unfolding bytes_eq
bytes_eq_refl [] = refl
bytes_eq_refl (x ∷ xs) = ground (arith, bytes_eq_refl xs)

bytes_eq→eq : (xs ys : List ℕ) → bytes_eq xs ys ≡ true → xs ≡ ys
unfolding bytes_eq
bytes_eq→eq [] [] h = refl
bytes_eq→eq [] (y ∷ ys) h = cc
bytes_eq→eq (x ∷ xs) [] h = cc
bytes_eq→eq (x ∷ xs) (y ∷ ys) h = ground (arith, bytes_eq→eq xs ys)

-- A frame that is whole and parses is read, and no byte behind it.
read_frame :
    (codec : Codec) (msg : BgpMessage) (header body rest : List ℕ)
    → length header ≡ header_len
    → take 16 header ≡ marker
    → length_field header ≡ header_len + length body
    → header_len + length body ≤ max_len
    → parse codec (header ++ body) ≡ ok msg
    → read_bgp_message codec (header ++ (body ++ rest)) ≡ (ok msg, rest)
unfolding read_bgp_message read_body read_payload
read_frame codec msg header body rest l m f x p =
    let same : bytes_eq (take 16 header) marker ≡ true = rw m (bytes_eq_refl marker) in
    rw (read_exact-append header_len header (body ++ rest) (sym l))
      (ground (arith, read_exact-append (length_field header - header_len) body rest (omega arith)))

take-append-drop : (n : ℕ) (xs : List ℕ) → take n xs ++ drop n xs ≡ xs
take-append-drop zero xs = refl
take-append-drop (suc n) [] = refl
take-append-drop (suc n) (x ∷ xs) = ap (◌∷◌ x) (take-append-drop n xs)

length-take : (n : ℕ) (xs : List ℕ) → n ≤ length xs → length (take n xs) ≡ n
length-take zero xs h = refl
length-take (suc n) [] h = elim h [ ]
length-take (suc n) (x ∷ xs) h = ap suc (length-take n xs (omega arith))

-- A list of at least three entries.
three :
    (d : List ℕ) → 3 ≤ length d → (a : ℕ) × (b : ℕ) × (c : ℕ) × (e : List ℕ) × (d ≡ a ∷ b ∷ c ∷ e)
three [] h = absurd (omega arith)
three (a ∷ []) h = absurd (omega arith)
three (a ∷ b ∷ []) h = absurd (omega arith)
three (a ∷ b ∷ c ∷ e) h = (a, b, c, e, refl)

length-drop : (n : ℕ) (xs : List ℕ) → length (drop n xs) ≡ length xs - n
length-drop zero xs = omega arith
length-drop (suc n) [] = omega arith
length-drop (suc n) (x ∷ xs) = omega (arith, length-drop n xs)

write_frame :
    (codec : Codec) (msg : BgpMessage) (frame : List ℕ)
    → header_len ≤ length (codec.encode msg)
    → write_bgp_message codec msg ≡ ok frame
    → frame ≡ marker ++ drop 16 (codec.encode msg)
unfolding write_bgp_message
write_frame codec msg frame l h = ground arith

-- What `write_bgp_message` sends for a message that the encoder encodes as documented is read back
-- as that message, and the bytes behind it are left for the next read.
pub read-write :
    (codec : Codec) (msg : BgpMessage) (frame rest : List ℕ)
    → Encodes codec msg
    → write_bgp_message codec msg ≡ ok frame
    → read_bgp_message codec (frame ++ rest) ≡ (ok msg, rest)
unfolding write_bgp_message parse length_field
read-write codec msg frame rest v h =
    let (a, b, c, body, d) =
      three (drop 16 (codec.encode msg))
        (omega (arith, v.least, length-drop 16 (codec.encode msg))) in
    let stated : a * 256 + b ≡ length (codec.encode msg) = rw (ap be16 d) at v.stated in
    let size : a * 256 + b ≡ header_len + length body =
      omega (arith, ap length d, length-drop 16 (codec.encode msg), v.least) in
    let parsed : codec.parse_32 (marker ++ (a ∷ b ∷ c ∷ body)) ≡ ok msg = rw d at v.parses in
    let sent : frame ≡ marker ++ (a ∷ b ∷ c ∷ body) =
      write_frame codec msg frame v.least h ∙ ap (λ t. marker ++ t) d in
    rw sent (
      read_frame codec msg (marker ++ (a ∷ b ∷ c ∷ [])) body rest refl refl size
        (omega (arith, v.most)) (rw (parsed, parse)))

take-append_le : (n : ℕ) (xs ys : List ℕ) → n ≤ length xs → take n (xs ++ ys) ≡ take n xs
take-append_le zero xs ys h = refl
take-append_le (suc n) [] ys h = elim h [ ]
take-append_le (suc n) (x ∷ xs) ys h = ap (◌∷◌ x) (take-append_le n xs ys (omega arith))

drop-append_le : (n : ℕ) (xs ys : List ℕ) → n ≤ length xs → drop n (xs ++ ys) ≡ drop n xs ++ ys
drop-append_le zero xs ys h = refl
drop-append_le (suc n) [] ys h = elim h [ ]
drop-append_le (suc n) (x ∷ xs) ys h = drop-append_le n xs ys (omega arith)

be16-append : (xs ys : List ℕ) → 2 ≤ length xs → be16 (xs ++ ys) ≡ be16 xs
unfolding length_field
be16-append [] ys h = absurd (omega arith)
be16-append (a ∷ []) ys h = absurd (omega arith)
be16-append (a ∷ b ∷ xs) ys h = refl

length_field-append :
    (header body : List ℕ)
    → length header ≡ header_len
    → length_field (header ++ body) ≡ length_field header
unfolding length_field
length_field-append header body l =
    ap be16 (drop-append_le 16 header body (omega arith))
    ∙ be16-append (drop 16 header) body (omega (arith, length-drop 16 header))

-- The parts of a body that was read behind its header.
record IsBody (codec : Codec) (header input rest : List ℕ) (msg : BgpMessage) : Type 0 where
  marked : bytes_eq (take 16 header) marker ≡ true
  least : header_len ≤ length_field header
  most : length_field header ≤ max_len
  enough : length_field header - header_len ≤ length input
  left : rest ≡ drop (length_field header - header_len) input
  parses : parse codec (header ++ take (length_field header - header_len) input) ≡ ok msg

read_body-IsBody :
    (codec : Codec) (header input rest : List ℕ) (msg : BgpMessage)
    → read_body codec header input ≡ (ok msg, rest)
    → IsBody codec header input rest msg
unfolding read_body read_exact
read_body-IsBody codec header input rest msg h = ground arith

-- A read that succeeds got its header.
after_header-read :
    (codec : Codec) (input rest : List ℕ) (msg : BgpMessage)
    → read_bgp_message codec input ≡ (ok msg, rest)
    → (header_len ≤ length input)
      × (read_body codec (take header_len input) (drop header_len input) ≡ (ok msg, rest))
unfolding read_bgp_message read_exact
after_header-read codec input rest msg h = ground arith

-- Whatever the connection sends: a message that is read was at the front of the connection as one
-- frame of 19 to 4096 bytes, with the marker and with its own length in its header, that frame
-- parses to the message, and exactly the bytes behind the frame are left.
pub read_bgp_message_frame :
    (codec : Codec) (input rest : List ℕ) (msg : BgpMessage)
    → read_bgp_message codec input ≡ (ok msg, rest)
    → (frame : List ℕ) × (input ≡ frame ++ rest)
      × (take 16 frame ≡ marker)
      × (length_field frame ≡ length frame)
      × (header_len ≤ length frame)
      × (length frame ≤ max_len)
      × (parse codec frame ≡ ok msg)
read_bgp_message_frame codec input rest msg h =
    let header = take header_len input in
    let input' = drop header_len input in
    let (enough, body_read) = after_header-read codec input rest msg h in
    let b = read_body-IsBody codec header input' rest msg body_read in
    let body = take (length_field header - header_len) input' in
    let l = length-take header_len input enough in
    let size : length (header ++ body) ≡ length_field header = omega (
      arith,
      length-append {0} header body,
      length-take (length_field header - header_len) input' b.enough,
      b.least,
      l,
    ) in
    (
      header ++ body,
      sym (take-append-drop header_len input)
          ∙ ap (◌++◌ header) (sym (take-append-drop (length_field header - header_len) input'))
          ∙ rw b.left (sym (append_assoc header body _)),
      take-append_le 16 header body (omega (arith, l))
          ∙ bytes_eq→eq (take 16 header) marker b.marked,
      length_field-append header body l ∙ sym size,
      rw size b.least,
      rw size b.most,
      b.parses,
    )
