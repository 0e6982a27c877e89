-- ===== src/Rlog/Client.antt =====
-- RLog of rlog/rlog.h and rlog/rlog.cc, whose static members are a record. A call takes its arguments and what it
-- learns outside: the environment, whether `connect` succeeds, the text that `vsnprintf` makes of its arguments, and
-- whether the client takes a request. `vsnprintf` is what its two calls come to: the second one reads arguments that the
-- first has used, so that what it makes is an argument of its own, and either can fail. A call returns the requests that
-- it sends and the lines that it prints.
pub mod Sent
mod Runs
use Prim.Native.String.{String}
use simple_rpc.Prelude.{
  ℕ, ◌+◌, ◌-◌, Bool, true, false, List, [], ◌∷◌, ◌++◌, length, take, if◌then◌else◌, ltb, leb,
  Option, some, none,
}
use simple_rpc.Prelude.Fault.{◌>>=◌, ◌>>◌, verify}

-- `buf_s` is whether there is a buffer, of `buf_len_s` bytes.
pub record RLog : Type 0 where
  pub my_ident_s : Option String
  pub rp_s : Bool
  pub cl_s : Bool
  pub buf_s : Bool
  pub buf_len_s : ℕ
  pub poll_s : Bool
  pub msg_counter_s : ℕ

abbrev pub do_finalize : RLog → RLog
do_finalize r = record r {
  my_ident_s = none;
  cl_s = false;
  rp_s = false;
  buf_s = false;
  poll_s = false;
}

abbrev pub or_else : Option String → Option String → Option String
or_else none other = other
or_else (some s) other = some s

-- The name that is given, or the one of the host and the process.
abbrev pub ident : Option String → String → String
ident none host_and_pid = host_and_pid
ident (some s) host_and_pid = s

-- `cl_s->connect`, with no address too.
abbrev pub connected : (String → Bool) → Option String → Bool
connected connect none = false
connected connect (some addr) = connect addr

unfoldable pub init :
    Option String
    → Option String
    → Option String
    → Option String
    → String
    → (String → Bool)
    → RLog
    → RLog
init my_ident rlog_addr rlog_server rlogserver host_and_pid connect r =
    let addr = or_else rlog_addr (or_else rlog_server rlogserver) in
    let made : RLog = record r {
      my_ident_s = some (ident my_ident host_and_pid);
      poll_s = true;
      cl_s = true;
    } in
    if r.cl_s
    then r
    else if connected connect addr
    then record made { rp_s = true; msg_counter_s = 0 }
    else do_finalize made

-- `RLogProxy::async_log` and `async_aggregate_qps`
pub data Request : Type 0 where
  log : ℕ → String → ℕ → List ℕ → Request
  qps : String → ℕ → Request

-- The text that a call of `vsnprintf` makes, or `none` for -1, in the first call and in the second.
pub record Formatted : Type 0 where
  pub first : Option (List ℕ)
  pub second : Option (List ℕ)

-- The bytes that `vsnprintf` puts before the 0 into a buffer of `size` bytes; it returns the length of the text.
abbrev pub vsnprintf : ℕ → List ℕ → List ℕ
vsnprintf size text = take (size - 1) text

-- The end of `log_v`, from the test of `rp_s` on.
abbrev pub send_log : ℕ → List ℕ → Bool → RLog → Option (RLog × List Request)
send_log level message taken r =
    let counted : RLog = record r { msg_counter_s = r.msg_counter_s + 1 } in
    if r.rp_s
    then elim r.my_ident_s [
      | none ↦ none
      | some source ↦
          if taken
          then some (counted, log level source r.msg_counter_s message ∷ [])
          else some (do_finalize counted, [])
    ]
    else some (r, [])

-- The size of the buffer once the text is in it, and the text of the last call. Where that call gives -1, the tests of
-- `cnt` do not hold it back, and the 0 is written before the buffer.
abbrev pub fitted : Formatted → ℕ → Option (ℕ × List ℕ)
fitted made buf_len = do
  text ← made.first
  let again = made.second >>= λ t.
      verify (ltb (length t) (length text + 16 - 1)) >> some (length text + 16, t)
  if leb (buf_len - 1) (length text) then again else some (buf_len, text)

unfoldable pub log_v : ℕ → Formatted → Bool → RLog → Option (RLog × List Request × List ℕ)
log_v level made taken r = do
  (buf_len, text) ← fitted made (if r.buf_s then r.buf_len_s else 8192)
  verify (ltb (length text) buf_len)
  let message = vsnprintf (buf_len - 1) text
  (r', sent) ← send_log level message taken (record r { buf_s = true; buf_len_s = buf_len })
  some (r', sent, message)

unfoldable pub aggregate_qps : String → ℕ → Bool → RLog → RLog × List Request
aggregate_qps metric_name increment taken r =
    if r.rp_s
    then if taken then (r, qps metric_name increment ∷ []) else (do_finalize r, [])
    else (r, [])

-- The static members at the start.
abbrev pub at_start : RLog
at_start = record {
  my_ident_s = none;
  rp_s = false;
  cl_s = false;
  buf_s = false;
  buf_len_s = 0;
  poll_s = false;
  msg_counter_s = 0;
}
