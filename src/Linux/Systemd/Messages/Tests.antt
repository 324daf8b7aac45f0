-- ===== src/Linux/Systemd/Messages/Tests.antt =====
-- The parser at the example reply.
use lx.Base.{some, refl, ◌≡◌, nat_Eq, list_Eq, int_Eq, option_Eq, List, arith}
use lx.Linux.Systemd.Example.{bus, start, units, bus-IsReply}
use lx.Domain.{ServiceInfo, success}
use lx.Linux.Systemd.Messages.{parse_list_units}
use lx.Linux.Systemd.Messages.Listed.{Units, parse_list_units-Units}

parse_list_units-Units_example :
    (services : List ServiceInfo) × ((parse_list_units bus 2 3 start).0 ≡ success (some services))
    × Units units services
parse_list_units-Units_example =
    parse_list_units-Units bus 2 (λ w. w.cursor) bus-IsReply 3 units start refl (omega arith)
