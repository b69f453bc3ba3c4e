-- ===== src/Controller/IpUpdate/Order/Whole.antt =====
-- The order of the calls of `Reconcile` for an address that was found.
use argora.Base.{List}
use argora.World.{World}
use argora.Effect.Traces.{Traces}
