-- ===== src/Flags.antt =====
-- The poll flags of <poll.h> as sets. POSIX gives each flag a bit of its own, so a mask is the
-- set of its flags, `|` is union and `& ~m` is difference.
use io_engine.Base.{Bool, false, not, ◌&&◌, ◌||◌}

pub data Flag : Type 0 where
  pollin pollpri pollout pollerr pollhup pollnval pollrdnorm pollrdband pollwrnorm pollwrband : Flag

abbrev pub Flags : Type 0
Flags = Flag → Bool

unfoldable pub no_flags : Flags
no_flags f = false

unfoldable pub union : Flags → Flags → Flags
union a b f = a f || b f

unfoldable pub minus : Flags → Flags → Flags
minus a b f = a f && not (b f)

unfoldable pub meet : Flags → Flags → Flags
meet a b f = a f && b f

-- `flags != 0`
unfoldable pub any : Flags → Bool
any a =
    a pollin
    || (a pollpri
        || (a pollout
            || (a pollerr
                || (a pollhup
                    || (a pollnval
                        || (a pollrdnorm || (a pollrdband || (a pollwrnorm || a pollwrband))))))))
