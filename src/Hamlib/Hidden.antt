-- ===== src/Hamlib/Hidden.antt =====
-- What a single-VFO session can tell of the radio.
use cathub.Radio.Session.{Session}
use cathub.Kenwood.Dialect.Presented.{exchange_write}
use cathub.Hamlib.Commands

abbrev pub exchange_plan : Commands.Plan → Commands.Plan
exchange_plan (Commands.writes m class) = Commands.writes (exchange_write m) class
exchange_plan (Commands.writes_both m n) =
    Commands.writes_both (exchange_write m) (exchange_write n)
exchange_plan plan = plan
