-- ===== src/Rlog/Client/Runs.antt =====
-- A client of the remote log that loses its server and starts again.
use simple_rpc.Prelude.{
  All, Bool, ℕ, length, ◌<◌, arith, ◌≡◌, refl, true, false, List, [], ◌∷◌, some, none,
}
use simple_rpc.Prelude.Fault.{Gives}
use simple_rpc.Rlog.Client.{Formatted, log_v, at_start}
use simple_rpc.Rlog.Client.Request.{log, qps}
use simple_rpc.Rlog.Client.Sent.{Call, IsFormatted, Ran, run, requests, is_local, run-Ran}
use simple_rpc.Rlog.Client.Sent.Call.{start, line, rate}

abbrev begin : Call
begin = start none none (some "server:1") none "host(pid=1)" (λ addr. true)

abbrev made : List ℕ → Formatted
made text = record { first = some text; second = none }

-- The third line and the two calls behind it stay local.
abbrev calls : List Call
calls =
    begin
    ∷ line 3 (made (b'a' ∷ [])) true
    ∷ rate "calls" 5 true
    ∷ line 3 (made (b'b' ∷ [])) false
    ∷ line 3 (made (b'c' ∷ [])) true
    ∷ rate "calls" 6 true
    ∷ begin
    ∷ line 3 (made (b'd' ∷ [])) true
    ∷ []

short :
    (text : List ℕ) (level : ℕ) (taken : Bool)
    → length text < 8191
    → IsFormatted (line level (made text) taken)
short text level taken h = (refl, λ long. absurd (omega arith))

formed : All IsFormatted calls
formed = (
  tt,
  (
    short _ 3 true (omega arith),
    (
      tt,
      (
        short _ 3 false (omega arith),
        (short _ 3 true (omega arith), (tt, (tt, (short _ 3 true (omega arith), tt)))),
      ),
    ),
  ),
)

run-Ran_example : Gives (Ran calls none) (run calls at_start)
run-Ran_example = run-Ran calls at_start none formed (is_local false 0 0 (λ e. cc))

sent :
    requests calls none
    ≡ log 3 "host(pid=1)" 0 (b'a' ∷ []) ∷ qps "calls" 5 ∷ log 3 "host(pid=1)" 0 (b'd' ∷ []) ∷ []
unfolding requests
sent = refl

-- A failure of `vsnprintf` is a write before the buffer.
failed_write : log_v 3 (record { first = none; second = none }) true at_start ≡ none
unfolding log_v
failed_write = refl
