-- ===== src/Server/Listener/Stopping.antt =====
-- The accept loop of src/optisocks5/server/server.py serves until it is closed.
use optisocks.Prelude.{ℤ, ◌≡◌, refl, ap, true, false, List, [], ◌∷◌, ◌++◌, Text, ok}
use optisocks.Server.Listener.{
  Listener, unbound, bind, close, Errno, eintr_or_other, conn, failed, Call, returned, waiting,
  handling, accept_loop, serve_forever, serve,
}

-- What `accept` gives while nobody closes the listener: connections, and errors that pass.
pub data Passing (C : Type 0) : Type 0 where
  arrives : C → Passing C
  fails : Passing C

abbrev pub listening : Listener
listening = record { is_bound = true; is_open = true }

module _ {C : Type 0} where
  abbrev pub call_of : Passing C → Call C
  call_of (arrives c) = record { closed_by_then = false; result = conn c }
  call_of fails = record { closed_by_then = false; result = failed eintr_or_other }

  abbrev pub calls_of : List (Passing C) → List (Call C)
  calls_of [] = []
  calls_of (x ∷ xs) = call_of x ∷ calls_of xs

  abbrev pub arrivals : List (Passing C) → List C
  arrivals [] = []
  arrivals (arrives c ∷ xs) = c ∷ arrivals xs
  arrivals (fails ∷ xs) = arrivals xs

  -- The call of `accept` that fails because `close` was called.
  abbrev pub last_call : Errno → Call C
  last_call e = record { closed_by_then = true; result = failed e }

  accept_loop-waits :
      (xs : List (Passing C))
      → accept_loop listening (calls_of xs)
        ≡ record { handled = arrivals xs; listener = listening; standing = waiting }
  unfolding accept_loop
  accept_loop-waits [] = refl
  accept_loop-waits (arrives c ∷ xs) = ap (handling c) (accept_loop-waits xs)
  accept_loop-waits (fails ∷ xs) = accept_loop-waits xs

  accept_loop-stops :
      (xs : List (Passing C)) (e : Errno) (more : List (Call C))
      → accept_loop listening (calls_of xs ++ last_call e ∷ more)
        ≡ record { handled = arrivals xs; listener = unbound; standing = returned }
  unfolding accept_loop close
  accept_loop-stops [] e more = refl
  accept_loop-stops (arrives c ∷ xs) e more = ap (handling c) (accept_loop-stops xs e more)
  accept_loop-stops (fails ∷ xs) e more = accept_loop-stops xs e more

  -- A server that could bind starts a thread for every connection that arrives, in order, whatever
  -- passing errors come between, and then waits for the next; once it is closed and `accept` fails,
  -- with any errno, `serve` returns, with the listener unbound and its socket closed.
  pub serve-returns :
      (l : Listener) (name : Text × ℤ) (xs : List (Passing C)) (e : Errno) (more : List (Call C))
      → (serve l (ok name) (calls_of xs)
          ≡ record { handled = arrivals xs; listener = listening; standing = waiting })
        × (serve l (ok name) (calls_of xs ++ last_call e ∷ more)
            ≡ record { handled = arrivals xs; listener = unbound; standing = returned })
  unfolding serve bind serve_forever
  serve-returns l name xs e more = (accept_loop-waits xs, accept_loop-stops xs e more)
