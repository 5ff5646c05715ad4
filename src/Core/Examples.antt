-- ===== src/Core/Examples.antt =====
-- The core on concrete requests.
use mini_ran.Core.History.{asks_detach, beats, Call, run-IsCore, expires, sends, asks_attach, run}
use mini_ran.Common.{add64, List, ℕ, ◌≡◌, ◌≢◌, ◌⊎◌, refl, [], ◌∷◌, arith, some}
use mini_ran.Core.{
  error, attached, data_packet, reply, insert, detach_request, heartbeat, handle_data,
  default_session, MessageType, ProtocolMessage, attach_request, SessionRecord, make_core,
  CoreNetwork, handle_attach_request,
}
use mini_ran.Protocol.Message.{make_message}
use mini_ran.Core.Registry
use mini_ran.Core.UnorderedMap.{find}
use mini_ran.Core.Invariant.{IsCore}
use mini_ran.Core.Accounting.{run-IsBalanced, IsBalanced}
use mini_ran.Core.Handlers.{IsAttachRequest}
use mini_ran.Core.Data.{data_counted_exactly, IsAccepted}
use mini_ran.Protocol.Session.{default_timers}
use mini_ran.Core.Answers.{attach_answers, IsEstablished}
use mini_ran.Core.Refinement.{core_implements, core_replies}
use mini_ran.Core.Registry.{serve_all, new_registry}
use mini_ran.Core.Represents.{Represents}

-- UE 7 attached under session 1000.
abbrev held : SessionRecord
held = record default_session { ue_id = 7; session_id = 1000; state = attached; last_seen_ms = 40 }

abbrev empty_core : CoreNetwork
unfolding make_core
empty_core = make_core default_timers

abbrev serving : CoreNetwork
serving = record empty_core { sessions = (7, held) ∷ []; next_session_id = 1001 }

abbrev asks : MessageType → ℕ → ProtocolMessage
unfolding make_message
asks type session_id = make_message type 7 session_id 3 50 []

abbrev packet : ProtocolMessage
unfolding make_message
packet = make_message data_packet 7 1000 4 60 (1 ∷ 2 ∷ 3 ∷ [])

run-IsCore_example : IsCore (
    run
      (make_core default_timers)
      ((50, asks_attach (asks attach_request 0)) ∷ (900, expires) ∷ []))
unfolding asks find
run-IsCore_example =
    run-IsCore default_timers ((50, asks_attach (asks attach_request 0)) ∷ (900, expires) ∷ [])
      (omega arith)

run-IsBalanced_example : IsBalanced (
    run
      (make_core default_timers)
      ((50, asks_attach (asks attach_request 0)) ∷ (60, sends packet) ∷ []))
unfolding asks packet find
run-IsBalanced_example =
    run-IsBalanced default_timers
      ((50, asks_attach (asks attach_request 0)) ∷ (60, sends packet) ∷ []) (omega arith)

asks-IsAttachRequest : IsAttachRequest (asks attach_request 0)
unfolding asks find
asks-IsAttachRequest = record {
  type_is = refl;
  ue_id_set = omega arith;
  number_set = omega arith;
  no_session = refl;
}

data_counted_exactly_example :
    ((s : SessionRecord) × IsAccepted serving packet s
      × (handle_data serving packet 60 ≡ record serving {
        sessions =
            insert 7
              (record s {
                delivered_bytes = add64 s.delivered_bytes 3;
                delivered_packets = add64 s.delivered_packets 1;
                last_seen_ms = 60;
              })
              serving.sessions;
        delivered_bytes = 3;
        delivered_packets = 1;
      }))
    ⊎ (((s : SessionRecord) → ¬ IsAccepted serving packet s)
        × (handle_data serving packet 60 ≡ serving))
unfolding packet empty_core find
data_counted_exactly_example = data_counted_exactly serving packet 60

attach_answers_example :
    IsAttachRequest (asks attach_request 0)
      × IsEstablished empty_core
          (asks attach_request 0)
          55
          (handle_attach_request empty_core (asks attach_request 0) 55).0
    ⊎ (((asks attach_request 0).ue_id ≡ 0)
        ⊎ ((asks attach_request 0).sequence_number ≡ 0)
        ⊎ ((asks attach_request 0).session_id ≢ 0))
      × (handle_attach_request empty_core (asks attach_request 0) 55
          ≡ (empty_core, some (reply error 7 0 3 55)))
unfolding asks
attach_answers_example = attach_answers empty_core (asks attach_request 0) 55 refl

-- An attach, a packet, a heartbeat, the expiry and a detach.
abbrev day : List (ℕ × Call)
day =
    (50, asks_attach (asks attach_request 0))
    ∷ (60, sends packet)
    ∷ (70, beats (asks heartbeat 1000))
    ∷ (900, expires)
    ∷ (910, asks_detach (asks detach_request 1000))
    ∷ []

core_implements_example :
    (core_replies (make_core default_timers) day
      ≡ Registry.replies (new_registry default_timers) day)
    × Represents (run (make_core default_timers) day) (serve_all (new_registry default_timers) day)
core_implements_example = core_implements default_timers day
