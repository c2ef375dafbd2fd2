-- ===== src/Tests/Replication.antt =====
-- A log that a new balancer applies.
use fusis.Prelude.{◌≡◌, refl, none, some, List, [], ◌∷◌, pos}
use fusis.GoMap.{lookup, insert, delete}
use fusis.Types.{returned}
use fusis.Ipvs.State.{FusisState, new_fusis_state, add_service, delete_service, add_destination}
use fusis.Engine.{Command, add_service_op, del_service_op, add_destination_op, apply_command, apply}
use fusis.Engine.Replication.{replay, run_log, Contents, nothing, replay_effects}
use fusis.Engine.Replication.Registry.{Shows, replay-Shows}
use fusis.Tests.Samples.{web, dns, one}

abbrev log : List Command
log =
    record { op = add_service_op; service = some web; destination = none }
    ∷ record { op = add_destination_op; service = some web; destination = some one }
    ∷ record { op = pos 9; service = none; destination = none }
    ∷ record { op = add_service_op; service = some dns; destination = none }
    ∷ record { op = del_service_op; service = some web; destination = none }
    ∷ []

abbrev in_the_end : FusisState
in_the_end = record { services = ("dns", dns) ∷ []; destinations = ("one", one) ∷ [] }

-- What a run of the log computes with.
unfoldable pub run : Unit {0}
unfolding replay run_log apply apply_command add_service delete_service add_destination insert
    delete lookup
run = tt

replayed : replay log new_fusis_state ≡ returned in_the_end
unfolding run
replayed = refl

replay-Shows_example :
    (r : Contents) × (replay_effects log nothing ≡ returned r) × Shows in_the_end r
replay-Shows_example = replay-Shows log replayed
