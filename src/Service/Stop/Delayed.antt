-- ===== src/Service/Stop/Delayed.antt =====
-- The delayed handlers when src/io_service.c winds the service up.
use io_engine.Base.{
  ℕ, zero, suc, ◌+◌, ◌≤◌, ◌≡◌, refl, sym, ◌∙◌, ap, List, [], ◌∷◌, ◌++◌, length, length-append,
  get_elem?, some, arith, ltb, true, false, ◌==◌, if◌then◌else◌,
}
use mathlib.Core.List.{append_assoc}
use io_engine.Types.{Handler, eio_stopped, null}
use io_engine.Dynarray
use io_engine.Service.{Service, DelayEntry, write_at}
use io_engine.Service.Monad.{Cmd}
use io_engine.Service.Stop.{stop_delayed, report_stopped}

-- The service once the status variable of a handler says `EIO_STOPPED`.
unfoldable pub told : DelayEntry → Service → Service
told ent s = record s {
  statuses = if ent.status == null then s.statuses else write_at s.statuses ent.status eio_stopped;
}

module _ (call : Handler → Cmd (Unit {0})) where
  -- The handlers of the entries are called in this order, each once its status variable says
  -- `EIO_STOPPED`, and the calls lead from the first service to the second.
  pub data Stops : List DelayEntry → Service → Service → Type 0 where
    all_stopped : {s : Service} → Stops [] s s
    stopped :
        {ent : DelayEntry} {ents : List DelayEntry} {s t : Service} (s1 : Service)
        → call ent.handler (told ent s) ≡ some (tt, s1)
        → Stops ents s1 t
        → Stops (ent ∷ ents) s t

  nth :
      (pre : List DelayEntry) (ent : DelayEntry) (rest : List DelayEntry)
      → get_elem? (pre ++ ent ∷ rest) (length pre) ≡ some ent
  nth [] ent rest = refl
  nth (x ∷ pre) ent rest = nth pre ent rest

  stop_step :
      (fuel i : ℕ) (s s1 : Service) (ent : DelayEntry)
      → Dynarray.at s.timed_handlers i ≡ some ent
      → ltb i (Dynarray.size s.timed_handlers) ≡ true
      → call ent.handler (told ent s) ≡ some (tt, s1)
      → stop_delayed call (suc fuel) i s ≡ stop_delayed call fuel (i + 1) s1
  unfolding stop_delayed report_stopped told
  stop_step fuel i s s1 ent a b c = ground arith

  stop_end :
      (fuel i : ℕ) (s : Service)
      → ltb i (Dynarray.size s.timed_handlers) ≡ false
      → stop_delayed call fuel i s ≡ some (tt, s)
  unfolding stop_delayed
  stop_end zero i s b = refl
  stop_end (suc fuel) i s b = ground arith

  module _
      (quiet : (h : Handler) (s : Service)
        → (s1 : Service) × (call h s ≡ some (tt, s1))
          × (s1.timed_handlers ≡ s.timed_handlers)) where
    Stops-from :
        (pre rest : List DelayEntry) (fuel : ℕ) (s : Service)
        → s.timed_handlers.items ≡ pre ++ rest
        → length rest ≤ fuel
        → (t : Service) × (stop_delayed call fuel (length pre) s ≡ some (tt, t))
          × Stops rest s t
          × (t.timed_handlers ≡ s.timed_handlers)
    unfolding told Dynarray.at Dynarray.size
    Stops-from pre [] fuel s e b =
        let len = ap length e ∙ length-append pre [] in
        (s, stop_end fuel (length pre) s (ground (arith, len)), all_stopped, refl)
    Stops-from pre (ent ∷ rest) zero s e b = absurd (omega arith)
    Stops-from pre (ent ∷ rest) (suc fuel) s e b =
        let (s1, c, k) = quiet ent.handler (told ent s) in
        let len = ap length e ∙ length-append pre (ent ∷ rest) in
        let next : length pre + 1 ≡ length (pre ++ ent ∷ []) =
          omega (arith, length-append pre (ent ∷ [])) in
        let (t, e', d, k') =
          Stops-from (pre ++ ent ∷ []) rest fuel s1
            (ap (λ d. d.items) k ∙ e ∙ sym (append_assoc pre (ent ∷ []) rest)) (omega arith) in
        (
          t,
          stop_step fuel (length pre) s s1 ent
                (ap (λ xs. get_elem? xs (length pre)) e ∙ nth pre ent rest) (ground (arith, len)) c
              ∙ ap (λ i. stop_delayed call fuel i s1) next
              ∙ e',
          stopped s1 c d,
          k' ∙ k,
        )

    -- Where callbacks return and leave the delayed handlers alone, the loop of `iosvc_prep_stop`
    -- calls the handler of each entry once, in the order of the array and with its status variable
    -- at `EIO_STOPPED`; rounds for the size of the array are enough.
    pub stop_delayed-Stops :
        (s : Service)
        → (t : Service) × (stop_delayed call (Dynarray.size s.timed_handlers) 0 s ≡ some (tt, t))
          × Stops s.timed_handlers.items s t
          × (t.timed_handlers ≡ s.timed_handlers)
    unfolding Dynarray.size
    stop_delayed-Stops s =
        Stops-from [] s.timed_handlers.items (length s.timed_handlers.items) s refl (omega arith)
