-- ===== src/Server/Rounds.antt =====
-- The loop of n_dhcp4_server_dispatch.
use n_dhcp.Base.{ℕ, zero, suc, ◌+◌, ◌≡◌, refl, ◌∙◌, ap, Option, none, some, List, ◌==◌, ◌>>=◌}
use n_dhcp.Protocol.{Error, again, preempted, Result, ok, err}
use n_dhcp.Incoming.{Incoming}
use n_dhcp.Incoming.Refine.{Parsed}
use n_dhcp.Server.{
  SConnection, verify_incoming, verified, dispatch_io, dispatch_rounds, server_dispatch,
  after_round,
}
use n_dhcp.Server.Classify.{
  Verdict, rejects_malformed, rejects_unexpected, classifies, verify_incoming-Judges,
}

-- What the socket gives: an error, or a parsed message with its destination.
abbrev pub IsParsed : Result (Incoming × ℕ) → Type 0
IsParsed (err e) = Unit {0}
IsParsed (ok (i, dest)) = (raw : List ℕ) × Parsed raw i

abbrev pub code_of : Error → Option Error
code_of again = none
code_of e = some e

-- How the loop ends, from the k-th call of the socket on: after all rounds it says that there may be
-- more, and an error of the socket ends it, of which AGAIN is a success.
pub data Ends (recv : ℕ → Result (Incoming × ℕ)) : ℕ → ℕ → Option Error → Type 0 where
  exhausted : (k : ℕ) → Ends recv k zero (some preempted)
  stops :
      (k n : ℕ) (e : Error) (r : Option Error)
      → recv k ≡ err e
      → r ≡ code_of e
      → Ends recv k (suc n) r
  continues :
      (k n : ℕ) (m : Incoming × ℕ) (r : Option Error)
      → recv k ≡ ok m
      → Ends recv (k + 1) n r
      → Ends recv k (suc n) r

-- A message of the socket is handled with success, be it discarded or not.
handled :
    (c : SConnection) (i : Incoming) (dest : ℕ) (raw : List ℕ)
    → Parsed raw i
    → (m : Option Incoming) × (dispatch_io c (ok (i, dest)) ≡ some (ok m))
unfolding dispatch_io
handled c i dest raw p =
    let v = verify_incoming-Judges c (dest == 0xffffffff) raw i p in go v.0 v.1 v.2
  where
    go :
        (r : Result Incoming)
        → verify_incoming c i (dest == 0xffffffff) ≡ some r
        → Verdict c.ip (dest == 0xffffffff) raw i r
        → (m : Option Incoming) × ((verify_incoming c i (dest == 0xffffffff) >>= λ r.
              some (verified r))
            ≡ some (ok m))
    go _ e (rejects_malformed m) = (none, rw e refl)
    go _ e (rejects_unexpected u) = (none, rw e refl)
    go _ e (classifies t k) = (some (record i { type = t }), rw e refl)

stop_code :
    (e : Error) (rest : Option (Option Error)) → after_round (some (err e)) rest ≡ some (code_of e)
stop_code again rest = refl
stop_code e rest = refl

module _ (c : SConnection) (recv : ℕ → Result (Incoming × ℕ))
    (parsed : (k : ℕ) → IsParsed (recv k)) where
  abbrev Ending : ℕ → ℕ → Option (Option Error) → Type 0
  Ending k n run = (r : Option Error) × (run ≡ some r) × Ends recv k n r

  round-Ends :
      (k n : ℕ) (rest : Option (Option Error)) (m : Result (Incoming × ℕ))
      → recv k ≡ m
      → IsParsed m
      → Ending (k + 1) n rest
      → Ending k (suc n) (after_round (dispatch_io c m) rest)
  unfolding dispatch_io
  round-Ends k n rest (err e) q p t = (code_of e, stop_code e rest, stops k n e (code_of e) q refl)
  round-Ends k n rest (ok (i, dest)) q (raw, p) (r, run, ends) =
      let h = handled c i dest raw p in
      (
        r,
        ap (λ (x : Option (Result (Option Incoming))). after_round x rest) h.1 ∙ run,
        continues k n (i, dest) r q ends,
      )

  rounds-Ends : (n k : ℕ) → Ending k n (dispatch_rounds c recv k n)
  unfolding dispatch_rounds
  rounds-Ends zero k = (some preempted, refl, exhausted k)
  rounds-Ends (suc n) k =
      round-Ends k n (dispatch_rounds c recv (k + 1) n) (recv k) refl (parsed k)
        (rounds-Ends n (k + 1))

  -- On any parsed messages and errors of the socket, the server returns after at most 128 messages,
  -- without a fault: with PREEMPTED after 128 messages, or else with the first error of the socket,
  -- of which AGAIN is a success. A message is no error, also if it is discarded.
  pub server_dispatch-Ends : Ending 0 128 (server_dispatch c recv)
  unfolding server_dispatch
  server_dispatch-Ends = rounds-Ends 128 0
