-- ===== src/Wire/Messages.antt =====
-- A run of messages is received as it was sent.
use reckon_k8s.Prelude.{
  ℕ, zero, suc, ◌^◌, ◌<◌, ◌≡◌, refl, List, [], ◌∷◌, ◌++◌, length, All, append-nil, append_assoc,
}
use reckon_k8s.Outcome.{Outcome, ok, raise, ◌>>=◌, eof_error}
use reckon_k8s.Types.{Message}
use reckon_k8s.Wire.{Stream, Codec, send, recv}
use reckon_k8s.Wire.Packets.{IsAscii, packet, send_packet_lem, recv_packet_lem, recv_packet-nil}

module _ (codec : Codec) where
  open codec use {json, parse_raw}

  unfoldable pub send_all : List Message → Stream → Outcome Stream
  send_all [] s = ok s
  send_all (m ∷ ms) s = do s' ← send codec m s; send_all ms s'

  unfoldable pub recv_all : ℕ → Stream → Outcome (List Message × Stream)
  recv_all zero s = ok ([], s)
  recv_all (suc n) s = do (m, s') ← recv codec s; (ms, s'') ← recv_all n s'; ok (m ∷ ms, s'')

  -- What the runner relies on: the JSON of a message is ASCII and parses back to the message. Its
  -- length fits the header.
  abbrev pub IsSendable : Message → Type 0
  IsSendable m = (parse_raw (json m) ≡ ok m) × IsAscii (json m) × (length (json m) < 2 ^ 31)

  packets : List Message → Stream
  packets [] = []
  packets (m ∷ ms) = packet (json m) ++ packets ms

  send_all-packets :
      (ms : List Message) (s : Stream) → All IsSendable ms → send_all ms s ≡ ok (s ++ packets ms)
  unfolding send_all packets send
  send_all-packets [] s h = rw append-nil refl
  send_all-packets (m ∷ ms) s ((parses, ascii, short), h) =
      rw
        (
          send_packet_lem (json m) s short ascii,
          send_all-packets ms (s ++ packet (json m)) h,
          append_assoc,
        )
        refl

  recv_all-packets :
      (ms : List Message) (rest : Stream)
      → All IsSendable ms
      → recv_all (length ms) (packets ms ++ rest) ≡ ok (ms, rest)
  unfolding recv_all packets recv
  recv_all-packets [] rest h = refl
  recv_all-packets (m ∷ ms) rest ((parses, ascii, short), h) =
      rw
        (
          append_assoc,
          recv_packet_lem (json m) (packets ms ++ rest) short ascii,
          parses,
          recv_all-packets ms rest h,
        )
        refl

  recv-nil : recv codec [] ≡ raise eof_error
  unfolding recv
  recv-nil = rw recv_packet-nil refl

  -- The messages that one side sends over an empty pipe are received by the other side in their
  -- order, and the receive after the last raises EOFError. Each is to parse back from its JSON.
  pub messages_roundtrip :
      (ms : List Message)
      → All IsSendable ms
      → (s : Stream) × (s' : Stream) × (send_all ms [] ≡ ok s)
        × (recv_all (length ms) s ≡ ok (ms, s'))
        × (recv codec s' ≡ raise eof_error)
  messages_roundtrip ms h = (
    packets ms,
    [],
    send_all-packets ms [] h,
    rw append-nil at (recv_all-packets ms [] h),
    recv-nil,
  )
