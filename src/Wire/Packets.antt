-- ===== src/Wire/Packets.antt =====
-- Packets are received as they were sent.
use reckon_k8s.Prelude.{
  ℕ, ◌+◌, ◌*◌, ◌/◌, ◌%◌, ◌^◌, ◌≤◌, ◌<◌, ◌≡◌, refl, ◌⊎◌, inl, inr, true, false, [], ◌∷◌, ◌++◌,
  length, ltb, arith, lt→ltb, ltb→lt, All, take-length_append, drop-length_append, Bool-cases,
}
use reckon_k8s.Prelude.Int.{pos}
use reckon_k8s.Outcome.{ok, raise, struct_error, unicode_error, eof_error}
use reckon_k8s.Text.{Text}
use reckon_k8s.Wire.{Stream, pack_long, unpack_long, is_ascii, read_bytes, send_packet, recv_packet}

abbrev pub IsAscii : Text → Type 0
IsAscii s = All (λ c. c < 128) s

IsAscii-is_ascii : (s : Text) → IsAscii s → is_ascii s ≡ true
unfolding is_ascii
IsAscii-is_ascii [] h = refl
IsAscii-is_ascii (c ∷ s) h = rw (lt→ltb c 128 h.0, IsAscii-is_ascii s h.1) refl

is_ascii-IsAscii : (s : Text) → is_ascii s ≡ true → IsAscii s
unfolding is_ascii
is_ascii-IsAscii [] h = tt
is_ascii-IsAscii (c ∷ s) h = ground (arith, is_ascii-IsAscii s)

-- The four bytes of a length.
header : ℕ → Stream
header n = n % 256 ∷ n / 256 % 256 ∷ n / 65536 % 256 ∷ n / 16777216 % 256 ∷ []

pack_long-header : (n : ℕ) → n < 2 ^ 31 → pack_long n ≡ ok (header n)
unfolding pack_long header
pack_long-header n h = rw (lt→ltb n (2 ^ 31) h) refl

unpack-header : (n : ℕ) → n < 2 ^ 31 → unpack_long (header n) ≡ ok (pos n)
unfolding unpack_long header
unpack-header n h =
    let whole : n % 256
          + 256 * (n / 256 % 256)
          + 65536 * (n / 65536 % 256)
          + 16777216 * (n / 16777216 % 256)
        ≡ n =
      omega arith in
    rw (whole, lt→ltb n (2 ^ 31) h) refl

-- The packet of a text.
pub packet : Text → Stream
unfolding header
packet payload = header (length payload) ++ payload

pub send_packet_lem :
    (payload : Text) (stdin : Stream)
    → length payload < 2 ^ 31
    → IsAscii payload
    → send_packet payload stdin ≡ ok (stdin ++ packet payload)
unfolding send_packet packet
send_packet_lem payload stdin h a =
    rw (pack_long-header (length payload) h, IsAscii-is_ascii payload a) refl

pub recv_packet_lem :
    (payload : Text) (rest : Stream)
    → length payload < 2 ^ 31
    → IsAscii payload
    → recv_packet (packet payload ++ rest) ≡ ok (payload, rest)
unfolding recv_packet packet read_bytes
recv_packet_lem payload rest h a =
    rw
      (
        unpack-header (length payload) h,
        take-length_append payload rest,
        drop-length_append payload rest,
        IsAscii-is_ascii payload a,
      )
      refl

send_long :
    (payload : Text) (stdin : Stream)
    → ltb (length payload) (2 ^ 31) ≡ false
    → send_packet payload stdin ≡ raise struct_error
unfolding send_packet pack_long
send_long payload stdin e = rw e refl

send_not_ascii :
    (payload : Text) (stdin : Stream)
    → ltb (length payload) (2 ^ 31) ≡ true
    → is_ascii payload ≡ false
    → send_packet payload stdin ≡ raise unicode_error
unfolding send_packet pack_long
send_not_ascii payload stdin e a = rw (e, a) refl

pub recv_packet-nil : recv_packet [] ≡ raise eof_error
unfolding recv_packet read_bytes
recv_packet-nil = refl

-- What sending a text comes to: a length that four signed bytes cannot hold raises struct.error, a
-- character that is not ASCII raises UnicodeError, and any other text is appended as its packet,
-- which is received as that text, whatever follows it on the pipe.
pub packet_roundtrip :
    (payload : Text) (stdin rest : Stream)
    → (2 ^ 31 ≤ length payload) × (send_packet payload stdin ≡ raise struct_error)
      ⊎ (¬ IsAscii payload) × (send_packet payload stdin ≡ raise unicode_error)
      ⊎ ((p : Stream) × (send_packet payload stdin ≡ ok (stdin ++ p))
          × (recv_packet (p ++ rest) ≡ ok (payload, rest)))
packet_roundtrip payload stdin rest = elim (Bool-cases (ltb (length payload) (2 ^ 31))) [
  | inr long ↦ inl (ground arith, send_long payload stdin long)
  | inl short ↦ elim (Bool-cases (is_ascii payload)) [
    | inl a ↦ inr (
        inr (
          packet payload,
          send_packet_lem payload stdin (ltb→lt _ _ short) (is_ascii-IsAscii payload a),
          recv_packet_lem payload rest (ltb→lt _ _ short) (is_ascii-IsAscii payload a),
        ))
    | inr a ↦ inr (inl ((λ h. not_ascii payload a h), send_not_ascii payload stdin short a))
  ]
]
  where
    not_ascii : (s : Text) → is_ascii s ≡ false → IsAscii s → ⊥
    not_ascii s e h = cc (IsAscii-is_ascii s h)
