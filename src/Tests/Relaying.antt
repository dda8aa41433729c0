-- ===== src/Tests/Relaying.antt =====
-- The relays and the listener at concrete inputs.
use optisocks.Prelude.{
  ℕ, ◌+◌, ◌≤◌, ◌≡◌, inr, refl, pos, true, false, [], ◌∷◌, ◌++◌, ok, length, arith,
}
use optisocks.Server.Relay
use optisocks.Server.Relay.{Copy, Splice}
use optisocks.Server.Relay.Copied.{IsSpliced, Reach-IsSpliced}
use optisocks.Server.Listener
use optisocks.Server.Listener.{serve, unbound}
use optisocks.Server.Listener.Stopping
use optisocks.Server.Listener.Stopping.{listening, calls_of, arrivals, last_call, serve-returns}
use optisocks.Examples.Metered
use optisocks.Examples.Metered.Counted.{to_count, Reach-counted}
use optisocks.Tests.Samples.{name}

-- One direction sends three bytes in two parts and the FIN, the other is silent until the timeout.
abbrev done_there : Copy
done_there = record {
  ahead = [];
  tail = Relay.closes;
  timed = true;
  place = Relay.finished true;
  delivered = 1 ∷ 2 ∷ 3 ∷ [];
  half_closes = 1;
}

abbrev done_back : Copy
done_back = record {
  ahead = 4 ∷ [];
  tail = Relay.stays;
  timed = true;
  place = Relay.finished false;
  delivered = [];
  half_closes = 0;
}

abbrev ended : Splice
ended = record { there = done_there; back = done_back; returned = true }

relayed : Relay.Reach true (1 ∷ 2 ∷ 3 ∷ []) Relay.closes (4 ∷ []) Relay.stays 9 ended
relayed =
    Relay.next
      (Relay.next
        (Relay.next
          (Relay.next
            (Relay.next
              (Relay.next
                (Relay.next
                  (Relay.next
                    (Relay.next Relay.here (
                      Relay.thread (
                        Relay.receive (1 ∷ 2 ∷ []) (3 ∷ []) refl refl (omega arith) (omega arith))))
                    (Relay.caller (Relay.receive_fails refl (inr refl))))
                  (Relay.thread (Relay.send (1 ∷ 2 ∷ []) refl)))
                (Relay.thread (Relay.receive (3 ∷ []) [] refl refl (omega arith) (omega arith))))
              (Relay.thread (Relay.send (3 ∷ []) refl)))
            (Relay.caller (Relay.half_close_fails false refl)))
          (Relay.thread (Relay.end_of_stream refl refl refl)))
        (Relay.thread (Relay.half_close true refl)))
      (Relay.join true false refl refl refl)

Reach-IsSpliced_example : IsSpliced (1 ∷ 2 ∷ 3 ∷ []) (4 ∷ []) ended
Reach-IsSpliced_example =
    Reach-IsSpliced true (1 ∷ 2 ∷ 3 ∷ []) Relay.closes (4 ∷ []) Relay.stays 9 ended relayed

serve-returns_example :
    (serve {C = ℕ} unbound
        (ok (name, pos 1080))
        (calls_of (Stopping.arrives 7 ∷ Stopping.fails ∷ []))
      ≡ record { handled = 7 ∷ []; listener = listening; standing = Listener.waiting })
    × (serve {C = ℕ} unbound
          (ok (name, pos 1080))
          (calls_of (Stopping.arrives 7 ∷ Stopping.fails ∷ []) ++ last_call Listener.ebadf ∷ [])
        ≡ record { handled = 7 ∷ []; listener = unbound; standing = Listener.returned })
serve-returns_example =
    serve-returns unbound (name, pos 1080) (Stopping.arrives 7 ∷ Stopping.fails ∷ []) Listener.ebadf
      []

abbrev metered : Metered.Metered
metered = record {
  total = 12;
  there = record { ahead = 3 ∷ []; place = Metered.reading; delivered = 1 ∷ 2 ∷ [] };
  back = record { ahead = []; place = Metered.counting (4 ∷ []); delivered = [] };
}

metered_run : Metered.Reach 10 (1 ∷ 2 ∷ 3 ∷ []) (4 ∷ []) metered
metered_run =
    Metered.next
      (Metered.next
        (Metered.next
          (Metered.next Metered.here (
            Metered.thread
              (Metered.receive (1 ∷ 2 ∷ []) (3 ∷ []) refl refl (omega arith) (omega arith))))
          (Metered.caller (Metered.receive (4 ∷ []) [] refl refl (omega arith) (omega arith))))
        (Metered.thread (Metered.incr (1 ∷ 2 ∷ []) refl)))
      (Metered.thread (Metered.send (1 ∷ 2 ∷ []) refl))

Reach-counted_example :
    (metered.total + to_count metered.there + to_count metered.back ≡ 10 + 3 + 1)
    × (10 + length metered.there.delivered + length metered.back.delivered ≤ metered.total)
Reach-counted_example = Reach-counted 10 (1 ∷ 2 ∷ 3 ∷ []) (4 ∷ []) metered metered_run
