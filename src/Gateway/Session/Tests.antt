-- ===== src/Gateway/Session/Tests.antt =====
-- Sessions at concrete inputs.
use Prim.Native.Nat.{min}
use ldktela.Base.{◌==◌, if◌then◌else◌, length, ◌≡◌, some, List, [], ◌∷◌, arith}
use ldktela.Protocol.{resumed}
use ldktela.Gateway.Session.{new, replay_after}
use ldktela.Gateway.Session.History.{Call, event, drops, attaches, run, numbered, events}
use ldktela.Gateway.Session.Buffer.{length-buffer}
use ldktela.Gateway.Session.Replay.{replay_after-run}

-- Five events over a capacity of 3, with a lost and a new socket between them.
abbrev life : List Call
life =
    event (resumed 10)
    ∷ event (resumed 20)
    ∷ drops 5
    ∷ event (resumed 30)
    ∷ attaches 8
    ∷ event (resumed 40)
    ∷ event (resumed 50)
    ∷ []

replay_after-run_example :
    replay_after (run (new 1 2 7 3) life) 2
    ≡ some (numbered 2 (resumed 30 ∷ resumed 40 ∷ resumed 50 ∷ []))
unfolding events
replay_after-run_example = replay_after-run 1 2 7 3 2 life (omega arith)

length-buffer_example :
    length (run (new 1 2 7 3) life).buffer
    ≡ (if 3 == 0 then length (events life) else min 3 (length (events life)))
length-buffer_example = length-buffer 1 2 7 3 life
