-- ===== src/Wire.antt =====
-- `class Client` of reckon/reckon_types.py: messages as packets on the two pipes of a client.
pub mod Packets
pub mod Messages
use reckon_k8s.Prelude.{
  ℕ, suc, ◌+◌, ◌-◌, ◌*◌, ◌/◌, ◌%◌, ◌^◌, Bool, true, false, ◌&&◌, List, [], ◌∷◌, ◌++◌, length, take,
  drop, ltb, if◌then◌else◌,
}
use reckon_k8s.Prelude.Int.{ℤ, pos, negsuc}
use reckon_k8s.Outcome.{
  Outcome, ok, raise, ◌>>=◌, ◌>>◌, check, eof_error, struct_error, unicode_error,
}
use reckon_k8s.Text.{Text}
use reckon_k8s.Types.{Message}

-- What is left on a pipe until its end, as bytes.
abbrev pub Stream : Type 0
Stream = List ℕ

-- `pack("<l", n)`, for a length.
pub pack_long : ℕ → Outcome Stream
pack_long n =
    if ltb n (2 ^ 31)
    then ok (n % 256 ∷ n / 256 % 256 ∷ n / 65536 % 256 ∷ n / 16777216 % 256 ∷ [])
    else raise struct_error

-- `unpack("<l", size)`: the four bytes are a number in two's complement.
pub unpack_long : Stream → Outcome ℤ
unpack_long (a ∷ b ∷ c ∷ d ∷ []) =
    let n = a + 256 * b + 65536 * c + 16777216 * d in
    if ltb n (2 ^ 31) then ok (pos n) else ok (negsuc (2 ^ 32 - n - 1))
unpack_long _ = raise struct_error

is_ascii : Text → Bool
is_ascii [] = true
is_ascii (c ∷ s) = ltb c 128 && is_ascii s

-- `bytes(payload, "ascii")` and `str(payload, "ascii")`.
abbrev ascii : List ℕ → Outcome (List ℕ)
ascii s = do check (is_ascii s) unicode_error; ok s

-- `stream.read(n)`: a negative number of bytes is all of them.
pub read_bytes : ℤ → Stream → Stream × Stream
read_bytes (pos n) s = (take n s, drop n s)
read_bytes (negsuc n) s = (s, [])

-- `_send_packet`, with what the pipe `stdin` holds.
pub send_packet : Text → Stream → Outcome Stream
send_packet payload stdin = do
  size ← pack_long (length payload)
  bytes ← ascii payload
  ok (stdin ++ (size ++ bytes))

-- The rest of `_recv_packet`, once the size is known not to be empty.
recv_sized : Stream → Stream → Outcome (Text × Stream)
recv_sized size stdout = do
  n ← unpack_long size
  let read = read_bytes n stdout
  payload ← ascii read.0
  ok (payload, read.1)

recv_after : Stream × Stream → Outcome (Text × Stream)
unfolding recv_sized
recv_after ([], stdout) = raise eof_error
recv_after (b ∷ size, stdout) = recv_sized (b ∷ size) stdout

-- `_recv_packet`
pub recv_packet : Stream → Outcome (Text × Stream)
unfolding recv_after
recv_packet stdout = recv_after (read_bytes (pos 4) stdout)

-- `msg.json()` and `Message.parse_raw`, of the package `pydantic`.
pub record Codec : Type 0 where
  pub json : Message → Text
  pub parse_raw : Text → Outcome Message

unfoldable pub send : Codec → Message → Stream → Outcome Stream
send codec msg = send_packet (codec.json msg)

unfoldable pub recv : Codec → Stream → Outcome (Message × Stream)
recv codec stdout = do (pkt, rest) ← recv_packet stdout; msg ← codec.parse_raw pkt; ok (msg, rest)
