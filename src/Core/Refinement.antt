-- ===== src/Core/Refinement.antt =====
-- The core and the registry over any history of calls.
use mini_ran.Core.UnorderedMap.{find}
use mini_ran.Core.{SessionTimers, ℕ, Option, ProtocolMessage, CoreNetwork, make_core}
use mini_ran.Core.History.{reply_to, run, Call, asks_attach, asks_detach, beats, sends, expires}
use mini_ran.Core.Registry
use mini_ran.Core.Registry.{Registry, new_registry, with_entry, serve, serve_all, fresh}
use mini_ran.Common.{ap₂, [], ◌∷◌, List, refl, ◌≡◌, ℕ, Option}
use mini_ran.Core.Represents.{
  Represents, Matches, attach-Matches, detach-Matches, heartbeat-Matches, data-Represents,
  expire-Represents,
}

-- The replies of the core, one for each call.
abbrev pub core_replies : CoreNetwork → List (ℕ × Call) → List (Option ProtocolMessage)
core_replies core [] = []
core_replies core (call ∷ calls) =
    (reply_to core call).1 ∷ core_replies (reply_to core call).0 calls

-- One call: the same reply, and agreement after it.
serve-Matches :
    (core : CoreNetwork) (r : Registry) (call : ℕ × Call)
    → Represents core r
    → Matches (reply_to core call) (serve r call)
serve-Matches core r (now, asks_attach m) rep = attach-Matches core r rep m now
serve-Matches core r (now, asks_detach m) rep = detach-Matches core r rep m now
serve-Matches core r (now, beats m) rep = heartbeat-Matches core r rep m now
serve-Matches core r (now, sends m) rep = (data-Represents core r rep m now, refl)
serve-Matches core r (now, expires) rep = (expire-Represents core r rep now, refl)

replies_from :
    (core : CoreNetwork) (r : Registry) (calls : List (ℕ × Call))
    → Represents core r
    → (core_replies core calls ≡ Registry.replies r calls)
      × Represents (run core calls) (serve_all r calls)
replies_from core r [] rep = (refl, rep)
replies_from core r (call ∷ calls) rep =
    let (after, same) = serve-Matches core r call rep in
    let (others, last) = replies_from (reply_to core call).0 (serve r call).0 calls after in
    (ap₂ ◌∷◌ same others, last)

-- From a new core and an empty registry on, any history of requests, packets and expiries gets the
-- same replies from both, and afterwards the core has for each UE the session that the registry
-- has, and the same next identifier and totals. The registry is a function from UEs to sessions, so
-- what the core does depends on no order of its table.
pub core_implements :
    (timers : SessionTimers) (calls : List (ℕ × Call))
    → (core_replies (make_core timers) calls ≡ Registry.replies (new_registry timers) calls)
      × Represents (run (make_core timers) calls) (serve_all (new_registry timers) calls)
unfolding make_core find
core_implements timers calls = replies_from (make_core timers) (new_registry timers) calls (record {
  keys = tt;
  agree = λ k. refl;
  same_timeout = refl;
  same_next = refl;
  same_bytes = refl;
  same_packets = refl;
})
