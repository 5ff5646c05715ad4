-- ===== src/Protocol/Session/Examples.antt =====
-- Sessions of a UE through concrete histories.
use mini_ran.Common.{◌≡◌, refl, [], ◌∷◌, arith}
use mini_ran.Protocol.Session.{
  attach_request, detach_request, default_timers, attaching, detaching, attached, idle, rejected,
  released, heartbeat, make_session, SessionManager,
}
use mini_ran.Protocol.Session.Machine.{step-Moves, step, begins_attach, Moves}
use mini_ran.Protocol.Session.Retries.{
  attach_gives_up, detach_gives_up, attached_never_gives_up, tick_all,
}

-- The session of UE 7 before anything happened, and with an attach and with a detach under way.
abbrev fresh : SessionManager
unfolding make_session
fresh = make_session 7 default_timers

abbrev waiting : SessionManager
waiting = record fresh { state = attaching; attach_retry_count = 2; last_control_tx_ms = 300 }

abbrev leaving : SessionManager
leaving = record fresh { state = detaching; session_id = 1000; last_control_tx_ms = 100 }

abbrev connected : SessionManager
connected = record fresh { state = attached; session_id = 1000; last_heartbeat_ack_ms = 50 }

step-Moves_example : Moves idle (step fresh (10, begins_attach)).state
unfolding fresh
step-Moves_example = step-Moves fresh 10 begins_attach (λ e. cc)

attach_gives_up_example :
    ((tick_all waiting (450 ∷ 600 ∷ [])).0.state ≡ rejected)
    × ((tick_all waiting (450 ∷ 600 ∷ [])).1 ≡ attach_request ∷ [])
unfolding fresh
attach_gives_up_example =
    attach_gives_up waiting 1 (450 ∷ 600 ∷ []) (ground arith) refl refl (ground arith) refl

detach_gives_up_example :
    ((tick_all leaving (250 ∷ 400 ∷ 550 ∷ [])).0.state ≡ released)
    × ((tick_all leaving (250 ∷ 400 ∷ 550 ∷ [])).0.session_id ≡ 1000)
    × ((tick_all leaving (250 ∷ 400 ∷ 550 ∷ [])).1 ≡ detach_request ∷ detach_request ∷ [])
unfolding fresh
detach_gives_up_example =
    detach_gives_up leaving 2 (250 ∷ 400 ∷ 550 ∷ []) (ground arith) refl refl (ground arith) refl

attached_never_gives_up_example :
    tick_all connected (100 ∷ 250 ∷ 9_000 ∷ []) ≡ (connected, heartbeat ∷ heartbeat ∷ [])
unfolding fresh
attached_never_gives_up_example =
    attached_never_gives_up connected (100 ∷ 250 ∷ 9_000 ∷ []) refl (ground arith)
