-- ===== src/Types.antt =====
-- include/iotypes.h, and the poll flags of the pollfds.
use io_engine.Base.{ℕ}
use io_engine.Base.Int.{ℤ}
use Prim.Native.String.{String}

-- Addresses, of nodes, of callbacks and of what callers pass by reference.
abbrev pub Ptr : Type 0
Ptr = ℕ

abbrev pub null : Ptr
null = 0

-- `io_wait_type`
pub data WaitType : Type 0 where
  wait_read wait_write wait_exception : WaitType

-- `io_errcode`
pub data Errcode : Type 0 where
  eio_ok eio_timeout eio_cancelled eio_stopped eio_invarg eio_noentry eio_nomem eio_inprogress
        eio_syserr eio_eof :
      Errcode

-- `io_event`
pub record Event : Type 0 where
  pub fd : ℤ
  pub wait_type : WaitType

-- `io_handler`: a function pointer and the context that it is called with.
pub record Handler : Type 0 where
  pub callback : Ptr
  pub ctx : Ptr

unfoldable pub ioec_strerr : Errcode → String
ioec_strerr eio_ok = "EIO_OK"
ioec_strerr eio_timeout = "EIO_TIMEOUT"
ioec_strerr eio_cancelled = "EIO_CANCELLED"
ioec_strerr eio_stopped = "EIO_STOPPED"
ioec_strerr eio_invarg = "EIO_INVARG"
ioec_strerr eio_noentry = "EIO_NOENTRY"
ioec_strerr eio_nomem = "EIO_NOMEM"
ioec_strerr eio_inprogress = "EIO_INPROGRESS"
ioec_strerr eio_syserr = "EIO_SYSERR"
ioec_strerr eio_eof = "EIO_EOF"
