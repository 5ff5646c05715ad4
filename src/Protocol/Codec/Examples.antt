-- ===== src/Protocol/Codec/Examples.antt =====
-- Frames of concrete messages.
use mini_ran.Common.{◌≡◌, refl, [], ◌∷◌, arith}
use mini_ran.Protocol.Message.{data_packet, named-IsMessageType, make_message, IsMessage}
use mini_ran.Protocol.Codec.{short_header, err, ProtocolMessage, ok, decode, encode}
use mini_ran.Protocol.Codec.Layout.{decode-parse, parse, accept}
use mini_ran.Protocol.Codec.RoundTrip.{decode-encode, encode-IsBytes, encode-decode}

-- A data packet of two bytes.
abbrev sample : ProtocolMessage
unfolding make_message
sample = make_message data_packet 7 1000 3 500 (171 ∷ 9 ∷ [])

sample-IsMessage : IsMessage sample
unfolding sample
sample-IsMessage = record {
  version_current = refl;
  header_length_current = refl;
  type_valid = named-IsMessageType data_packet tt;
  flags_fit = omega arith;
  session_id_fits = omega arith;
  ue_id_fits = omega arith;
  sequence_number_fits = omega arith;
  timestamp_fits = omega arith;
  payload_fits = omega arith;
  payload_length_counts = refl;
  payload_IsU8 = ground arith;
}

decode-encode_example : decode (encode sample) ≡ ok sample
unfolding sample
decode-encode_example = decode-encode sample sample-IsMessage

encode-decode_example : (encode sample ≡ encode sample) × IsMessage sample
unfolding sample
encode-decode_example =
    encode-decode (encode sample) sample (encode-IsBytes sample sample-IsMessage)
      (decode-encode sample sample-IsMessage)

decode-parse_example : decode (1 ∷ 6 ∷ 255 ∷ []) ≡ parse (1 ∷ 6 ∷ 255 ∷ [])
decode-parse_example = decode-parse (1 ∷ 6 ∷ 255 ∷ []) (ground arith)

-- The parsed meaning of a frame that stops in its header.
parse_short : parse (1 ∷ 6 ∷ 255 ∷ []) ≡ err short_header
unfolding accept
parse_short = refl
