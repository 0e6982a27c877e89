-- ===== src/Rlog/Service/Runs.antt =====
-- Runs of the log service.
use Prim.Native.String.{String}
use simple_rpc.Prelude.{ℕ, ◌≡◌, refl, List, [], ◌∷◌, map, arith}
use simple_rpc.Prelude.Int.{ℤ, pos}
use simple_rpc.Rlog.Service.{insert, flush, log}
use simple_rpc.Rlog.Service.History.{Call, logs, of_source, Ordered, asked, logs-Ordered}

abbrev numbered : String → ℕ → Call
numbered source n = record { level = pos 1; source = source; msg_id = pos n; message = "text" }

-- The last call first: a client sends 2, 4 and 1 while another one sends 1.
abbrev calls : List Call
calls = numbered "a" 1 ∷ numbered "b" 1 ∷ numbered "a" 4 ∷ numbered "a" 2 ∷ []

logs-Ordered_example : Ordered "a" (asked "a" calls) (logs calls)
logs-Ordered_example =
    logs-Ordered "a" calls (omega arith) (((λ e. cc), ((λ e. cc), tt)), (((λ e. cc), tt), (tt, tt)))

ids : String → List Call → List ℤ
unfolding logs
ids source before = map (λ p. p.msg_id) (of_source source (logs before).1)

printed : ids "a" calls ≡ pos 1 ∷ pos 2 ∷ []
unfolding ids logs log insert flush
printed = refl

-- The counter of the client starts at 0, and so does `done_`: the piece 1 does not wait for the piece 0.
overtaken : ids "a" (numbered "a" 0 ∷ numbered "a" 1 ∷ []) ≡ pos 1 ∷ pos 0 ∷ []
unfolding ids logs log insert flush
overtaken = refl
