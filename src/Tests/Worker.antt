-- ===== src/Tests/Worker.antt =====
-- Runs of aiomisc_worker. Payloads are lists of bytes that pickle leaves as they are.
use aiomisc.Base.{
  zero, suc, ℕ, ◌<◌, ◌≡◌, refl, sym, subst, List, [], ◌∷◌, arith, nat_eq, list_eq, pair_eq, All,
  length, Result, ok, err, ok-injective, zero, suc, ◌+◌, ◌≤◌, true, Option, none, some, ◌⊎◌, ◌++◌,
}
use aiomisc.Worker.Protocol.{
  connection_error, struct_error, pack, send_all, receive_all, read_socket, read_loop, pack_header,
  receive, unpack_header,
}
use aiomisc.Base.Dict.{take_out, Dict, lookup, put, delete}
use aiomisc.Base.Sets.{contains}
use aiomisc.Worker.Process.{
  request, Raised, cancelled_raised, exception_raised, Ending, returns, raises, Packet,
  result_packet, cancelled_packet, exception_packet, request_packet, serve,
}
use aiomisc.Worker.Process.Answers.{serve-answers}
use aiomisc.Worker.Supervisor.{main, supervise, waited, fork, fork_all, at_exit, new_supervisor}
use aiomisc.Worker.Supervisor.Tracked.{at_exit-kills}
use aiomisc.Worker.Supervisor.Conserved.{occurrences, values, processes_of-main}
use aiomisc.Worker.Protocol.Headers.{IsByte, header_bytes, pack-AllBytes}
use aiomisc.Worker.Protocol.Reading.{
  joined, NonEmpty, in_bytes, whole_or_closed, read_socket-in_bytes, read_socket-IsExact,
}
use aiomisc.Worker.Protocol.RoundTrip.{Received, receive_all-send_all}

abbrev copied : List ℕ → Result ℕ (List ℕ)
copied bytes = ok bytes

abbrev payloads : List (List ℕ)
payloads = (7 ∷ 8 ∷ 9 ∷ []) ∷ [] ∷ []

abbrev wire : List ℕ
wire = 0 ∷ 0 ∷ 0 ∷ 3 ∷ 7 ∷ 8 ∷ 9 ∷ 0 ∷ 0 ∷ 0 ∷ 0 ∷ []

-- The same bytes and one more, as they come in three chunks.
abbrev chunks : List (List ℕ)
chunks = (0 ∷ 0 ∷ 0 ∷ []) ∷ (3 ∷ 7 ∷ []) ∷ (8 ∷ 9 ∷ 0 ∷ 0 ∷ 0 ∷ 0 ∷ 5 ∷ []) ∷ []

sent : send_all copied payloads ≡ ok wire
unfolding send_all pack pack_header
sent = refl

chunks-NonEmpty : All NonEmpty chunks
chunks-NonEmpty = (omega arith, (omega arith, (omega arith, tt)))

chunks_read : receive_all copied read_socket 2 chunks ≡ ok (payloads, (5 ∷ []) ∷ [])
unfolding receive_all receive read_socket read_loop unpack_header
chunks_read = refl

-- The peer closes in the middle of a packet.
closed_early :
    receive_all copied read_socket 1 ((0 ∷ 0 ∷ 0 ∷ 3 ∷ 7 ∷ []) ∷ []) ≡ err connection_error
unfolding receive_all receive read_socket read_loop unpack_header
closed_early = refl

receive_all-send_all_example :
    Received (receive_all copied read_socket 2 chunks) joined (All NonEmpty) payloads (5 ∷ [])
receive_all-send_all_example =
    receive_all-send_all copied copied read_socket joined (All NonEmpty) (read_socket-IsExact ℕ)
      payloads wire (5 ∷ []) chunks sent (λ data_ h. sym h, (λ data_ h. sym h, tt)) chunks-NonEmpty
      refl

read_socket-in_bytes_example :
    in_bytes (read_socket {E = ℕ} 4 chunks) ≡ whole_or_closed 4 (joined chunks)
read_socket-in_bytes_example = read_socket-in_bytes 4 chunks chunks-NonEmpty

abbrev packed : List ℕ
packed = 0 ∷ 0 ∷ 0 ∷ 3 ∷ 7 ∷ 8 ∷ 9 ∷ []

three_bytes : pack copied (7 ∷ 8 ∷ 9 ∷ []) ≡ ok packed
unfolding pack pack_header
three_bytes = refl

three_bytes_AllBytes : (data_ : List ℕ) → copied (7 ∷ 8 ∷ 9 ∷ []) ≡ ok data_ → All IsByte data_
three_bytes_AllBytes data_ h =
    subst (All IsByte) (ok-injective h) (omega arith, (omega arith, (omega arith, tt)))

pack-AllBytes_example :
    ((4294967296 ≤ 3) × (pack copied (7 ∷ 8 ∷ 9 ∷ []) ≡ err struct_error))
    ⊎ ((3 < 4294967296)
        × (pack copied (7 ∷ 8 ∷ 9 ∷ []) ≡ ok (header_bytes 3 ++ 7 ∷ 8 ∷ 9 ∷ []))
        × (length (header_bytes 3 ++ 7 ∷ 8 ∷ 9 ∷ []) ≡ 7)
        × All IsByte (header_bytes 3 ++ 7 ∷ 8 ∷ 9 ∷ [])
        × (unpack_header {E = ℕ} (header_bytes 3) ≡ ok 3))
pack-AllBytes_example =
    pack-AllBytes copied (7 ∷ 8 ∷ 9 ∷ []) (7 ∷ 8 ∷ 9 ∷ []) refl
      (omega arith, (omega arith, (omega arith, tt)))

-- A function of 0 returns, one of 1 raises, one of 2 is cancelled; all answers can be sent.
abbrev calling : ℕ → Ending ℕ ℕ
calling zero = returns 10
calling (suc zero) = raises (exception_raised 11)
calling (suc (suc n)) = raises cancelled_raised

abbrev sends_all : Packet ℕ ℕ → Option (Raised ℕ)
sends_all p = none

abbrev due : ℕ → Packet ℕ ℕ
due zero = result_packet 10
due (suc zero) = exception_packet (exception_raised 11)
due (suc (suc n)) = cancelled_packet

serve-answers_example :
    serve calling sends_all
      (request_packet request 1 ∷ request_packet request 0 ∷ request_packet request 2 ∷ [])
    ≡ (due 1 ∷ due 0 ∷ due 2 ∷ (serve calling sends_all []).0, (serve calling sends_all []).1)
serve-answers_example = serve-answers calling sends_all due (1 ∷ 0 ∷ 2 ∷ []) [] (
  record { due = refl; sent = refl },
  (record { due = refl; sent = refl }, (record { due = refl; sent = refl }, tt)),
)

-- An operating system that gives a number above all that are in use.
abbrev above : Dict ℕ ℕ → ℕ
above [] = 1
above ((p, i) ∷ d) = suc p + above d

abbrev os_fork : ℕ → Dict ℕ ℕ → ℕ
os_fork n live = above live

lookup-above : (k : ℕ) (d : Dict ℕ ℕ) → above d ≤ k → lookup k d ≡ none
unfolding lookup
lookup-above k [] h = refl
lookup-above k ((p, i) ∷ d) h = ground (arith, lookup-above k d (omega arith))

os_fork_new : (n : ℕ) (live : Dict ℕ ℕ) → lookup (os_fork n live) live ≡ none
os_fork_new n live = lookup-above (above live) live (omega arith)

-- The workers 8 and 9 get the processes 1 and 3; 1 crashes and is replaced by 5, 3 ends well.
abbrev ends : List (ℕ × ℕ)
ends = (1, 1) ∷ (3, 0) ∷ []

replaced : (main os_fork (8 ∷ 9 ∷ []) ends).live ≡ (5, 8) ∷ []
unfolding main new_supervisor fork_all fork supervise waited take_out lookup put delete
replaced = refl

worker_lives : lookup 5 (main os_fork (8 ∷ 9 ∷ []) ends).live ≡ some 8
unfolding main new_supervisor fork_all fork supervise waited take_out lookup put delete
worker_lives = refl

at_exit-kills_example :
    contains (λ (q : ℕ). q) (at_exit (main os_fork (8 ∷ 9 ∷ []) ends)).0 5 ≡ true
at_exit-kills_example = at_exit-kills os_fork os_fork_new (8 ∷ 9 ∷ []) ends 5 8 worker_lives

processes_of-main_example :
    occurrences 8 (values (main os_fork (8 ∷ 9 ∷ []) ends).live)
      + occurrences 8 (main os_fork (8 ∷ 9 ∷ []) ends).ended
    ≡ occurrences 8 (8 ∷ 9 ∷ [])
processes_of-main_example = processes_of-main os_fork os_fork_new (8 ∷ 9 ∷ []) ends 8
