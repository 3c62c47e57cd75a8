-- ===== src/Tests/Samples.antt =====
-- Test data that several test modules share.
use io_engine.Base.{suc}
use io_engine.Base.Int.{pos}
use io_engine.Types.{Handler, eio_ok}
use io_engine.Service.{Service}
use io_engine.Service.Control.{initial}

abbrev pub handler : Handler
handler = record { callback = 1; ctx = 2 }

-- A new service in a memory that grants every allocation.
unfoldable pub fresh : Service
fresh = initial (λ p. eio_ok) (λ p. pos 0) suc
