-- ===== src/Nodes/Carried.antt =====
-- The data packets in datagrams, from the UE that sends them to the core that counts them.
use mini_ran.Nodes.Control.{IsControl, control-IsBytes, make_message-IsControl}
use mini_ran.Nodes.Ue
use mini_ran.Nodes.Ue.{
  to_access_node, Ue, queue_message, session_message, start_attach, start_detach, send_traffic,
}
use mini_ran.Transport.Network.Carried.{carried, carried-append_one}
use mini_ran.Protocol.Codec.{decode, encode, Decoded, ok, err}
use mini_ran.Protocol.Codec.Layout.{IsBytes, decode-parse, encode-frame, frame, parse, accept}
use mini_ran.Protocol.Message.{
  heartbeat, attach_request, detach_request, IsNamed, ProtocolMessage, make_message, MessageType,
  data_packet, same_type,
}
use mini_ran.Common.{
  ◌^◌, ◌<◌, IsU8, All, Bool, true, ◌+◌, ◌≤◌, refl, [], not, false, if_cases, length, arith,
  if◌then◌else◌, List, ◌≡◌, ℕ,
}
use mini_ran.Protocol.Session.{
  take_sequence_number, can_send_data, SessionManager, begin_attach, begin_detach, on_tick,
}
use mini_ran.Transport.Datagram.{Datagram}
use mini_ran.Metrics.{count_sent}

module _ (weight : ℕ → ℕ) where
  -- The weight of the payload of a data packet, and nothing for any other frame.
  abbrev pub data_in : Decoded → ℕ
  data_in (ok m) = if same_type m.message_type data_packet then weight (length m.payload) else 0
  data_in (err e) = 0

  abbrev pub amount : List ℕ → ℕ
  amount bytes = data_in (decode bytes)

  parse-control : (m : ProtocolMessage) → IsControl m → data_in (parse (frame m)) ≡ 0
  unfolding accept
  parse-control m v = ground (arith, v.type_fits.canonical, v.no_data)

  pub amount-control : (m : ProtocolMessage) → IsControl m → amount (encode m) ≡ 0
  amount-control m v =
      rw (encode-frame m, decode-parse (frame m) (control-IsBytes m v)) (parse-control m v)

  -- What the UE queues.
  carried-queue_message :
      (ue : Ue) (s : SessionManager) (type : MessageType) (now : ℕ) (control_plane : Bool)
      → IsNamed type
      → same_type type data_packet ≡ false
      → carried amount (queue_message ue s type now [] control_plane).outgoing
        ≡ carried amount ue.outgoing
  unfolding queue_message session_message
  carried-queue_message ue s type now control_plane t n =
      let message = (session_message s type now []).1 in
      omega (
        arith,
        carried-append_one amount ue.outgoing (to_access_node ue control_plane message now),
        amount-control message
            (make_message-IsControl type s.ue_id s.session_id (take_sequence_number s).1 now t n),
      )

  pub carried-start_attach :
      (ue : Ue) (now : ℕ)
      → carried amount (start_attach ue now).outgoing ≡ carried amount ue.outgoing
  unfolding start_attach
  carried-start_attach ue now =
      if_cases (λ (u : Ue). carried amount u.outgoing ≡ carried amount ue.outgoing)
        (begin_attach ue.session now).1 _ _
        (carried-queue_message ue (begin_attach ue.session now).0 attach_request now true tt refl)
        refl

  pub carried-start_detach :
      (ue : Ue) (now : ℕ)
      → carried amount (start_detach ue now).outgoing ≡ carried amount ue.outgoing
  unfolding start_detach
  carried-start_detach ue now =
      if_cases (λ (u : Ue). carried amount u.outgoing ≡ carried amount ue.outgoing)
        (not (begin_detach ue.session now).1) _ _ refl
        (carried-queue_message ue (begin_detach ue.session now).0 detach_request now true tt refl)

  pub carried-tick :
      (ue : Ue) (now : ℕ) → carried amount (Ue.tick ue now).outgoing ≡ carried amount ue.outgoing
  unfolding Ue.tick
  carried-tick ue now =
      let same = λ (u : Ue). carried amount u.outgoing ≡ carried amount ue.outgoing in
      let (m, decision) = on_tick ue.session now in
      let queued =
        λ (type : MessageType) (t : IsNamed type) (n : same_type type data_packet ≡ false).
          carried-queue_message
            (record ue {
              metrics = count_sent ue.metrics (length (encode (session_message m type now []).1));
            })
            m type now true t n in
      if_cases same (not decision.should_retransmit) _ _ refl (
        if_cases same (same_type decision.message_type attach_request) _ _
          (queued attach_request tt refl)
          (if_cases same (same_type decision.message_type detach_request) _ _
            (queued detach_request tt refl)
            (if_cases same (same_type decision.message_type heartbeat) _ _
              (queued heartbeat tt refl) refl)))

  pub carried-on_datagram :
      (ue : Ue) (d : Datagram) (now : ℕ) → (Ue.on_datagram ue d now).outgoing ≡ ue.outgoing
  unfolding Ue.on_datagram Ue.on_message
  carried-on_datagram ue d now = ground arith

  -- However the UE numbers a data packet with this payload, its amount is within the bound.
  abbrev pub IsWithin : ℕ → List ℕ → Type 0
  IsWithin bound payload =
      (ue_id session_id number now : ℕ)
      → amount (encode (make_message data_packet ue_id session_id number now payload)) ≤ bound

  pub carried-send_traffic :
      (ue : Ue) (payload : List ℕ) (now bound : ℕ)
      → IsWithin bound payload
      → carried amount (send_traffic ue payload now).outgoing ≤ carried amount ue.outgoing + bound
  unfolding send_traffic queue_message session_message
  carried-send_traffic ue payload now bound h =
      let s = ue.session in
      let message = (session_message s data_packet now payload).1 in
      if_cases (λ (u : Ue). carried amount u.outgoing ≤ carried amount ue.outgoing + bound)
        (not (can_send_data s)) _ _ (omega arith)
        (omega (
          arith,
          carried-append_one amount ue.outgoing (to_access_node ue false message now),
          h s.ue_id s.session_id (take_sequence_number s).1 now,
        ))

-- The frame of a data packet holds no more than its payload.
pub payload-IsWithin :
    (payload : List ℕ)
    → All IsU8 payload
    → length payload + 28 < 2 ^ 64
    → IsWithin (λ size. size) (length payload) payload
unfolding make_message accept
payload-IsWithin payload v h ue_id session_id number now =
    let m = make_message data_packet ue_id session_id number now payload in
    let bytes : IsBytes (frame m) = ground arith in
    rw (encode-frame m, decode-parse (frame m) bytes) (ground arith)
