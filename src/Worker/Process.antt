-- ===== src/Worker/Process.antt =====
-- aiomisc_worker/worker.py, and the packet types of aiomisc_worker/__init__.py. What comes from the
-- pool is a list, at whose end the pool has closed the connection. How a function ends is given by
-- `call`, and whether a packet can be sent by `send_fails`: pickle may refuse it, or the connection.
pub mod Answers
use aiomisc.Base.{
  ℕ, zero, ◌+◌, ◌-◌, ◌/◌, Bool, true, false, not, Option, none, some, List, [], ◌∷◌, ◌++◌,
  if◌then◌else◌, nat_eq, list_eq, pair_eq,
}

pub data PacketType : Type 0 where
  request exception result cancelled : PacketType
  auth auth_fail auth_ok bad_initializer bad_packet : PacketType

unfoldable pub is_request : PacketType → Bool
is_request request = true
is_request _ = false

unfoldable pub is_auth_ok : PacketType → Bool
is_auth_ok auth_ok = true
is_auth_ok _ = false

-- How the process ends: its exit status is zero, or not.
pub data Exit : Type 0 where
  exited : Exit
  crashed : Exit

-- What code of the worker raises: a subclass of ConnectionError, asyncio.CancelledError, an Exception,
-- or SystemExit, which says how to end.
pub data Raised (E : Type 0) : Type 0 where
  connection_raised cancelled_raised : Raised E
  exit_raised : Exit → Raised E
  unexpected_request failed_to_authorize : Raised E
  exception_raised : E → Raised E

pub data Ending (V E : Type 0) : Type 0 where
  returns : V → Ending V E
  raises : Raised E → Ending V E

-- What the worker sends: its authentication, or an answer.
pub data Packet (V E : Type 0) : Type 0 where
  auth_packet : List ℕ → List ℕ → ℕ → Packet V E
  bad_initializer_packet : List ℕ → List ℕ → ℕ → Packet V E
  result_packet : V → Packet V E
  cancelled_packet : Packet V E
  exception_packet : Raised E → Packet V E

-- What a receive of the worker gives: a packet, or what it raises.
pub data Incoming (F E : Type 0) : Type 0 where
  request_packet : PacketType → F → Incoming F E
  receive_raises : Raised E → Incoming F E

module _ {F V E : Type 0} (call : F → Ending V E)
    (send_fails : Packet V E → Option (Raised E)) where
  -- The packets that were sent, and what is raised.
  abbrev pub Sent : Type 0
  Sent = List (Packet V E) × Option (Raised E)

  abbrev pub send_checked : Packet V E → Option (Raised E) → Sent
  send_checked p none = (p ∷ [], none)
  send_checked p (some x) = ([], some x)

  abbrev pub send : Packet V E → Sent
  send p = send_checked p (send_fails p)

  -- The three handlers of `execute`; SystemExit goes through.
  unfoldable pub handle_raised : Raised E → Sent
  handle_raised cancelled_raised = send cancelled_packet
  handle_raised connection_raised = ([], some connection_raised)
  handle_raised (exit_raised s) = ([], some (exit_raised s))
  handle_raised x = send (exception_packet x)

  abbrev pub send_result : V → Option (Raised E) → Sent
  send_result v none = (result_packet v ∷ [], none)
  send_result v (some x) = handle_raised x

  abbrev pub run_function : Ending V E → Sent
  run_function (returns v) = send_result v (send_fails (result_packet v))
  run_function (raises x) = handle_raised x

  unfoldable pub execute : Incoming F E → Sent
  execute (receive_raises x) = ([], some x)
  execute (request_packet t f) =
      if is_request t then run_function (call f) else ([], some unexpected_request)

  abbrev pub exit_of : Raised E → Exit
  exit_of connection_raised = exited
  exit_of (exit_raised s) = s
  exit_of _ = crashed

  abbrev pub continue_after : Sent → List (Packet V E) × Exit → List (Packet V E) × Exit
  continue_after (packets, none) later = (packets ++ later.0, later.1)
  continue_after (packets, some x) later = (packets, exit_of x)

  -- The loop of `worker`; a receive of a closed connection raises ConnectionError.
  unfoldable pub serve : List (Incoming F E) → List (Packet V E) × Exit
  serve [] = ([], exited)
  serve (i ∷ is) = continue_after (execute i) (serve is)

  abbrev pub after_auth : Sent → PacketType → List (Incoming F E) → List (Packet V E) × Exit
  after_auth (packets, some x) response is = (packets, exit_of x)
  after_auth (packets, none) response is =
      let served = serve is in
      if is_auth_ok response
      then (packets ++ served.0, served.1)
      else (packets, exit_of failed_to_authorize)

  -- `worker`, with HMAC as a parameter.
  unfoldable pub worker :
      (List ℕ → List ℕ → List ℕ)
      → List ℕ
      → List ℕ
      → ℕ
      → PacketType
      → List (Incoming F E)
      → List (Packet V E) × Exit
  worker hmac cookie worker_id pid response is =
      after_auth (send (auth_packet worker_id (hmac cookie worker_id) pid)) response is

  abbrev pub then_send : Sent → Packet V E → Sent
  then_send (packets, some x) p = (packets, some x)
  then_send (packets, none) p = let more = send p in (packets ++ more.0, more.1)

  unfoldable pub bad_initializer_call :
      (List ℕ → List ℕ → List ℕ) → List ℕ → List ℕ → ℕ → Raised E → Sent
  bad_initializer_call hmac cookie worker_id pid exc =
      then_send (send (bad_initializer_packet worker_id (hmac cookie worker_id) pid))
        (exception_packet exc)
