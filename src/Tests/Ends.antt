-- ===== src/Tests/Ends.antt =====
-- Winding up, and the outcome of connecting.
use io_engine.Base.{◌≡◌, refl, ◌↔◌, ◌⊎◌, inr, false, none, some}
use io_engine.Base.Int.{pos, negsuc}
use io_engine.Types.{Errcode, eio_ok}
use io_engine.Service.{Service}
use io_engine.AsyncNet.{ConnCtx, connect_impl, ConnectAnswers, async_connect}
use io_engine.AsyncNet.Outcome.{connect_impl_lem, Fails, async_connect_errors}
use io_engine.Tests.Samples.{fresh, handler}

abbrev conn : ConnCtx
conn = record { sockfd = pos 4; hnd = handler; errc = 9 }

connect_impl_lem_example :
    (u : Service) × (connect_impl (pos 0) (pos 111) conn fresh ≡ some (handler, u))
    × ((u.statuses 9 ≡ eio_ok)
        ↔ ((fresh.statuses 9 ≡ eio_ok) × (◌≡◌ (pos 0) (pos 0)) × (pos 111 ≡ pos 0)))
    × ((fresh.statuses 9 ≡ eio_ok) ⊎ (u ≡ fresh))
connect_impl_lem_example = connect_impl_lem (pos 0) (pos 111) conn fresh

-- The connection is refused at once.
abbrev refused : ConnectAnswers
refused = record { get_flags = pos 2; set_flags = pos 0; connected = negsuc 0; in_progress = false }

async_connect_errors_example :
    (code : Errcode) × (u : Service) × (async_connect refused (pos 4) handler 9 7 fresh
      ≡ some ((code, none), u))
    × Fails refused fresh code u
async_connect_errors_example =
    async_connect_errors refused (pos 4) handler 9 7 fresh (inr (inr (inr (refl, refl))))
