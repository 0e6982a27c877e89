-- ===== src/Rlog/Client/Sent.antt =====
-- The calls of RLog of rlog/rlog.cc, one after another, beside a client that has a name and a number alone.
use Prim.Native.String.{String}
use simple_rpc.Prelude.{
  ℕ, ◌+◌, ◌-◌, ◌≤◌, ◌<◌, ◌≡◌, refl, sym, ap, ap₂, subst, ◌∙◌, arith, Bool, true, false, Bool-cases,
  inl, inr, List, [], ◌∷◌, ◌++◌, length, take, take_all, All, ltb, if◌then◌else◌, if_case, leb,
  lt→ltb, Option, some, none,
}
use simple_rpc.Prelude.Fault.{◌>>=◌, ◌>>◌, verify, Gives, gives, Gives-bind, verify-Gives}
use simple_rpc.Rlog.Client.{
  RLog, Formatted, do_finalize, or_else, ident, connected, init, Request, send_log, fitted, log_v,
  aggregate_qps,
}
use simple_rpc.Rlog.Client.Request.{log, qps}

pub data Call : Type 0 where
  start :
      Option String
      → Option String
      → Option String
      → Option String
      → String
      → (String → Bool)
      → Call
  finalize : Call
  line : ℕ → Formatted → Bool → Call
  rate : String → ℕ → Bool → Call

-- The text that the first `vsnprintf` makes.
abbrev pub told : Formatted → List ℕ
told made = elim made.first [ none ↦ [] | some text ↦ text ]

-- `vsnprintf` does not fail, and its second call, which a text of 8191 bytes or more can need, makes the same text.
abbrev pub IsFormatted : Call → Type 0
IsFormatted (line level made taken) =
    (made.first ≡ some (told made)) × (8191 ≤ length (told made) → made.second ≡ some (told made))
IsFormatted (start i a b c h connect) = Unit {0}
IsFormatted finalize = Unit {0}
IsFormatted (rate metric n taken) = Unit {0}

-- What a call leaves, sends and prints.
abbrev pub step : Call → RLog → Option (RLog × List Request × List (List ℕ))
step (start i a b c h connect) r = some (init i a b c h connect r, [], [])
step finalize r = some (do_finalize r, [], [])
step (line level made taken) r = do
  (r', sent, message) ← log_v level made taken r
  some (r', sent, message ∷ [])
step (rate metric n taken) r =
    let (r', sent) = aggregate_qps metric n taken r in some (r', sent, [])

unfoldable pub run : List Call → RLog → Option (RLog × List Request × List (List ℕ))
run [] r = some (r, [], [])
run (c ∷ cs) r = do
  (r', sent, printed) ← step c r
  (r'', sent', printed') ← run cs r'
  some (r'', sent ++ sent', printed ++ printed')

-- The client as its server sees it: its name and the number of its next message, or none in local mode.
abbrev pub Seen : Type 0
Seen = Option (String × ℕ)

abbrev pub seen_step : Call → Seen → Seen × List Request
seen_step (start i a b c h connect) none =
    (if connected connect (or_else a (or_else b c)) then some (ident i h, 0) else none, [])
seen_step (start i a b c h connect) (some s) = (some s, [])
seen_step finalize s = (none, [])
seen_step (line level made taken) none = (none, [])
seen_step (line level made true) (some (source, n)) =
    (some (source, n + 1), log level source n (told made) ∷ [])
seen_step (line level made false) (some (source, n)) = (none, [])
seen_step (rate metric n taken) none = (none, [])
seen_step (rate metric n true) (some s) = (some s, qps metric n ∷ [])
seen_step (rate metric n false) (some s) = (none, [])

unfoldable pub requests : List Call → Seen → List Request
requests [] s = []
requests (c ∷ cs) s = (seen_step c s).1 ++ requests cs (seen_step c s).0

unfoldable pub texts : List Call → List (List ℕ)
texts [] = []
texts (line level made taken ∷ cs) = told made ∷ texts cs
texts (start i a b c h connect ∷ cs) = texts cs
texts (finalize ∷ cs) = texts cs
texts (rate metric n taken ∷ cs) = texts cs

abbrev pub local : Bool → ℕ → ℕ → RLog
local b len n = record {
  my_ident_s = none;
  rp_s = false;
  cl_s = false;
  buf_s = b;
  buf_len_s = len;
  poll_s = false;
  msg_counter_s = n;
}

abbrev pub remote : String → Bool → ℕ → ℕ → RLog
remote source b len n = record {
  my_ident_s = some source;
  rp_s = true;
  cl_s = true;
  buf_s = b;
  buf_len_s = len;
  poll_s = true;
  msg_counter_s = n;
}

-- All pointers but the one to the buffer are null, or none is; a buffer has 8192 bytes or more.
pub data IsWhole : RLog → Seen → Type 0 where
  is_local : (b : Bool) (len n : ℕ) → (b ≡ true → 8192 ≤ len) → IsWhole (local b len n) none
  is_remote :
      (source : String) (b : Bool) (len n : ℕ)
      → (b ≡ true → 8192 ≤ len)
      → IsWhole (remote source b len n) (some (source, n))

fitted-Gives :
    (made : Formatted) (len : ℕ)
    → 8192 ≤ len
    → made.first ≡ some (told made)
    → (8191 ≤ length (told made) → made.second ≡ some (told made))
    → Gives
        (λ (k, text). (length (told made) + 2 ≤ k) × (8192 ≤ k) × (text ≡ told made))
        (fitted made len)
fitted-Gives made len h first second =
    subst
      (λ o. Gives Fits (
        o >>= λ text.
        (let again = made.second >>= λ t.
        verify (ltb (length t) (length text + 16 - 1)) >> some (length text + 16, t) in
          if leb (len - 1) (length text) then again else some (len, text))))
      (sym first)
      (elim (Bool-cases (leb (len - 1) cnt)) [
        | inl full ↦
            let long : 8191 ≤ cnt = ground arith in
            rw (full, second long)
              (verify-Gives _ _ (lt→ltb cnt (cnt + 16 - 1) (omega arith))
                (gives (omega arith, omega arith, refl)))
        | inr fits ↦
            let small : cnt + 1 < len = ground arith in rw fits (gives (omega arith, h, refl))
      ])
  where
    cnt : ℕ
    cnt = length (told made)

    Fits : ℕ × List ℕ → Type 0
    Fits (k, text) = (cnt + 2 ≤ k) × (8192 ≤ k) × (text ≡ told made)

log_v-Gives :
    (Q : RLog × List Request × List ℕ → Type 0) (level : ℕ) (made : Formatted) (taken : Bool)
    (r : RLog)
    → IsFormatted (line level made taken)
    → (r.buf_s ≡ true → 8192 ≤ r.buf_len_s)
    → ((k : ℕ)
        → 8192 ≤ k
        → Gives Q (
            send_log level (told made) taken (record r { buf_s = true; buf_len_s = k }) >>= λ q.
            some (q.0, q.1, told made)))
    → Gives Q (log_v level made taken r)
unfolding log_v
log_v-Gives Q level made taken r (first, second) h next =
    Gives-bind
      (fitted-Gives made (if r.buf_s then r.buf_len_s else 8192)
        (if_case (λ k. 8192 ≤ k) r.buf_s h (λ e. omega arith)) first second)
      λ (k, text) (room, size, same).
        let cnt = length (told made) in
        subst
          (λ t. Gives Q (
            verify (ltb (length t) k)
            >> (send_log level (take (k - 1 - 1) t) taken (record r { buf_s = true; buf_len_s = k })
                >>= λ q. some (q.0, q.1, take (k - 1 - 1) t))))
          (sym same)
          (verify-Gives _ _ (lt→ltb cnt k (omega arith)) (
            subst
              (λ message. Gives Q (
                send_log level message taken (record r { buf_s = true; buf_len_s = k }) >>= λ q.
                some (q.0, q.1, message)))
              (sym (take_all (k - 1 - 1) (told made) (omega arith))) (next k size)))

abbrev pub Stepped : Call → Seen → RLog × List Request × List (List ℕ) → Type 0
Stepped c s (r', sent, printed) =
    let (s', expected) = seen_step c s in
    IsWhole r' s' × (sent ≡ expected) × (printed ≡ texts (c ∷ []))

abbrev Logged : ℕ → Formatted → Bool → Seen → RLog × List Request × List ℕ → Type 0
Logged level made taken s (r', sent, message) =
    let (s', expected) = seen_step (line level made taken) s in
    IsWhole r' s' × (sent ≡ expected) × (message ≡ told made)

line-Stepped :
    (level : ℕ) (made : Formatted) (taken : Bool) (r : RLog) (s : Seen)
    → IsFormatted (line level made taken)
    → (r.buf_s ≡ true → 8192 ≤ r.buf_len_s)
    → ((k : ℕ)
        → 8192 ≤ k
        → Gives (Logged level made taken s) (
            send_log level (told made) taken (record r { buf_s = true; buf_len_s = k }) >>= λ q.
            some (q.0, q.1, told made)))
    → Gives (Stepped (line level made taken) s) (step (line level made taken) r)
unfolding texts
line-Stepped level made taken r s formed fit sent =
    Gives-bind (log_v-Gives (Logged level made taken s) level made taken r formed fit sent)
      λ q (whole, same, all). gives (whole, same, ap (λ m. m ∷ []) all)

step-Stepped :
    (c : Call) (r : RLog) (s : Seen) → IsFormatted c → IsWhole r s → Gives (Stepped c s) (step c r)
unfolding init aggregate_qps texts
step-Stepped (start i a b c h connect) r none formed (is_local buf len n fit) =
    elim (Bool-cases (connected connect (or_else a (or_else b c)))) [
      | inl up ↦ rw up (gives (rw up (is_remote (ident i h) buf len 0 fit), refl, refl))
      | inr down ↦ rw down (gives (rw down (is_local false len n (λ e. cc)), refl, refl))
    ]
step-Stepped (start i a b c h connect) r (some s) formed (is_remote source buf len n fit) =
    gives (is_remote source buf len n fit, refl, refl)
step-Stepped finalize r none formed (is_local buf len n fit) =
    gives (is_local false len n (λ e. cc), refl, refl)
step-Stepped finalize r (some s) formed (is_remote source buf len n fit) =
    gives (is_local false len n (λ e. cc), refl, refl)
step-Stepped (line level made taken) r none formed (is_local buf len n fit) =
    line-Stepped level made taken r none formed fit
      (λ k size. gives (is_local true k n (λ e. size), refl, refl))
step-Stepped (line level made true) r (some s) formed (is_remote source buf len n fit) =
    line-Stepped level made true r (some s) formed fit
      (λ k size. gives (is_remote source true k (n + 1) (λ e. size), refl, refl))
step-Stepped (line level made false) r (some s) formed (is_remote source buf len n fit) =
    line-Stepped level made false r (some s) formed fit
      (λ k size. gives (is_local false k (n + 1) (λ e. cc), refl, refl))
step-Stepped (rate metric m taken) r none formed (is_local buf len n fit) =
    gives (is_local buf len n fit, refl, refl)
step-Stepped (rate metric m true) r (some s) formed (is_remote source buf len n fit) =
    gives (is_remote source buf len n fit, refl, refl)
step-Stepped (rate metric m false) r (some s) formed (is_remote source buf len n fit) =
    gives (is_local false len n (λ e. cc), refl, refl)

-- What the calls leave, send and print.
abbrev pub Ran : List Call → Seen → RLog × List Request × List (List ℕ) → Type 0
Ran cs s (r', sent, printed) =
    ((s' : Seen) × IsWhole r' s') × (sent ≡ requests cs s) × (printed ≡ texts cs)

texts-cons : (c : Call) (cs : List Call) → texts (c ∷ cs) ≡ texts (c ∷ []) ++ texts cs
unfolding texts
texts-cons (start i a b c h connect) cs = refl
texts-cons finalize cs = refl
texts-cons (line level made taken) cs = refl
texts-cons (rate metric n taken) cs = refl

-- Where `vsnprintf` does not fail, and makes the same text again where a text of 8191 bytes or more is formatted twice:
-- however often RLog is started and finalized, with or without a server, and wherever a request is refused: no check
-- fails and no null pointer is read; all pointers but that to the buffer are null afterwards or none is; each message
-- is printed whole; and what is sent is what a client in `requests` sends, which has a name and a counter from 0 on
-- that each start sets, and sends no more once a request has been refused.
pub run-Ran :
    (cs : List Call) (r : RLog) (s : Seen)
    → All IsFormatted cs
    → IsWhole r s
    → Gives (Ran cs s) (run cs r)
unfolding run requests texts
run-Ran [] r s f w = gives ((s, w), refl, refl)
run-Ran (c ∷ cs) r s (formed, f) w =
    Gives-bind (step-Stepped c r s formed w) λ (r', sent, printed) (w', e, t).
      Gives-bind (run-Ran cs r' (seen_step c s).0 f w') λ (r'', sent', printed') (w'', e', t').
        gives (w'', ap₂ (λ a b. a ++ b) e e', ap₂ (λ a b. a ++ b) t t' ∙ sym (texts-cons c cs))
