-- ===== src/Backend/Api/Tests.antt =====
-- The handlers at concrete requests.
use storepulse.Prelude.{ℕ, Bool, false, [], ◌∷◌, arith}
use storepulse.Backend.Models.{sale_event}
use storepulse.Backend.Api.{BackendState, create_event, heartbeat}
use storepulse.Backend.Api.Replies.{Consequence, create_event-Consequence}
use storepulse.Backend.Api.Online.{heartbeat_online, HeartbeatConsequence}
use storepulse.Backend.Ingestion.Fixtures.{number_json, seeded, two_coffees}

abbrev start : BackendState ℕ
start = record { db = seeded; manager = record { connections = 1 ∷ 2 ∷ [] } }

abbrev no_failure : ℕ → Bool
no_failure w = false

create_event-Consequence_example :
    let r = create_event no_failure [] 60 (sale_event two_coffees) start in
    Consequence 60 (sale_event two_coffees) start r r.reply
create_event-Consequence_example =
    create_event-Consequence no_failure [] 60 (sale_event two_coffees) start

heartbeat_online_example :
    HeartbeatConsequence 91 100 30 "MAD-MADRID" start
      (heartbeat no_failure [] 90 91 "MAD-MADRID" start)
heartbeat_online_example =
    heartbeat_online no_failure [] 90 91 100 30 "MAD-MADRID" start (omega arith) (omega arith)
