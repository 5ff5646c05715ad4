-- ===== src/Nodes/Lifetime.antt =====
-- The UE through any history of calls of its methods.
use mini_ran.Nodes.Ue
use mini_ran.Common.{refl, ℕ, ◌≡◌, List, [], ◌∷◌, arith, IsU32}
use mini_ran.Nodes.Ue.{
  session_message, queue_message, send_traffic, start_detach, Ue, start_attach, make_ue,
}
use mini_ran.Transport.Datagram.{Datagram}
use mini_ran.Protocol.Session.{
  on_tick, begin_detach, begin_attach, take_sequence_number, on_heartbeat_response,
  on_detach_accepted, make_session, on_attach_accepted, SessionTimers,
}
use mini_ran.Protocol.Session.Machine.{IsSession}
use mini_ran.Protocol.Codec.{decode, err, ok, Decoded}
use mini_ran.Protocol.Message.{ProtocolMessage}

pub data Call : Type 0 where
  attaches detaches ticks flushes : Call
  sends : List ℕ → Call
  receives : Datagram → Call

abbrev pub step : Ue → ℕ × Call → Ue
step ue (now, attaches) = start_attach ue now
step ue (now, detaches) = start_detach ue now
step ue (now, ticks) = Ue.tick ue now
step ue (now, flushes) = (Ue.flush_outgoing ue).0
step ue (now, sends payload) = send_traffic ue payload now
step ue (now, receives d) = Ue.on_datagram ue d now

abbrev pub run : Ue → List (ℕ × Call) → Ue
run ue [] = ue
run ue (call ∷ calls) = run (step ue call) calls

-- The session is in order and under the UE's own identifier.
pub record InOrder (ue : Ue) : Type 0 where
  pub session_in_order : IsSession ue.session
  pub own_session : ue.session.ue_id ≡ ue.node_id

on_message-InOrder :
    (ue : Ue) (m : ProtocolMessage) (now : ℕ) → InOrder ue → InOrder (Ue.on_message ue m now)
unfolding Ue.on_message on_attach_accepted on_detach_accepted on_heartbeat_response
on_message-InOrder ue m now v = ground arith

on_datagram-InOrder :
    (ue : Ue) (d : Datagram) (now : ℕ) → InOrder ue → InOrder (Ue.on_datagram ue d now)
unfolding Ue.on_datagram
on_datagram-InOrder ue d now v = decoded (decode d.bytes)
  where
    decoded :
        (result : Decoded)
        → InOrder
            (elim result as (λ _. Ue) [ ok message ↦ Ue.on_message ue message now | err e ↦ ue ])
    decoded (ok m) = on_message-InOrder ue m now v
    decoded (err e) = v

pub step-InOrder : (ue : Ue) (now : ℕ) (call : Call) → InOrder ue → InOrder (step ue (now, call))
unfolding start_attach start_detach Ue.tick Ue.flush_outgoing send_traffic queue_message
    session_message take_sequence_number begin_attach begin_detach on_tick
step-InOrder ue now (receives d) v = on_datagram-InOrder ue d now v
step-InOrder ue now _ v = ground arith

run-InOrder_from : (ue : Ue) (calls : List (ℕ × Call)) → InOrder ue → InOrder (run ue calls)
run-InOrder_from ue [] v = v
run-InOrder_from ue ((now, call) ∷ calls) v =
    run-InOrder_from (step ue (now, call)) calls (step-InOrder ue now call v)

pub make_ue-InOrder :
    (node_id access_node_id : ℕ) (timers : SessionTimers)
    → IsU32 timers.max_attach_retries
    → IsU32 timers.max_detach_retries
    → InOrder (make_ue node_id access_node_id timers)
unfolding make_ue make_session
make_ue-InOrder node_id access_node_id timers ha hd = ground arith

pub on_datagram-node_id :
    (ue : Ue) (d : Datagram) (now : ℕ) → (Ue.on_datagram ue d now).node_id ≡ ue.node_id
unfolding Ue.on_datagram Ue.on_message
on_datagram-node_id ue d now = ground arith

pub calls-node_id :
    (ue : Ue) (now : ℕ) (payload : List ℕ)
    → ((Ue.tick ue now).node_id ≡ ue.node_id)
      × ((send_traffic ue payload now).node_id ≡ ue.node_id)
      × ((start_attach ue now).node_id ≡ ue.node_id)
      × ((start_detach ue now).node_id ≡ ue.node_id)
unfolding Ue.tick send_traffic start_attach start_detach queue_message session_message
calls-node_id ue now payload = ground arith

pub make_ue-node_id :
    (node_id access_node_id : ℕ) (timers : SessionTimers)
    → (make_ue node_id access_node_id timers).node_id ≡ node_id
unfolding make_ue
make_ue-node_id node_id access_node_id timers = refl

-- With limits of 32 bits for the retries, after any history of calls of a new UE's methods its
-- session is in order, which bounds the retry counters and the sequence number, and is under the
-- UE's own identifier.
pub run-InOrder :
    (node_id access_node_id : ℕ) (timers : SessionTimers) (calls : List (ℕ × Call))
    → IsU32 timers.max_attach_retries
    → IsU32 timers.max_detach_retries
    → InOrder (run (make_ue node_id access_node_id timers) calls)
run-InOrder node_id access_node_id timers calls ha hd =
    run-InOrder_from _ calls (make_ue-InOrder node_id access_node_id timers ha hd)
