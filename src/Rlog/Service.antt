-- ===== src/Rlog/Service.antt =====
-- `RLogServiceImpl::log` of rlog/log_service_impl.cc, with `log_piece` of rlog/log_service_impl.h. The maps
-- are functions of the source's name, since `[]` on a missing key puts the default value there: no piece, and
-- 0. A call returns the lines that it prints: the source and the piece.
pub mod Order
pub mod History
mod Runs
use text.Mathlib.Text.{◌==◌ as str_eq}
use Prim.Native.String.{String}
use simple_rpc.Prelude.{
  ℕ, ◌+◌, ◌<◌, Bool, true, false, List, [], ◌∷◌, ◌++◌, if◌then◌else◌, ltb, not,
}
use simple_rpc.Prelude.Int.{ℤ, pos, negsuc, pos_part, neg_part, leb_ℤ, succ_ℤ, max_ℤ}

pub record LogPiece : Type 0 where
  pub msg_id : ℤ
  pub level : ℤ
  pub message : String

-- `std::set<log_piece>::insert`, which compares by `msg_id` and keeps a piece that is there.
unfoldable pub insert : LogPiece → List LogPiece → List LogPiece
insert piece [] = piece ∷ []
insert piece (p ∷ ps) =
    let rest = insert piece ps in
    if not (leb_ℤ p.msg_id piece.msg_id)
    then piece ∷ p ∷ ps
    else if not (leb_ℤ piece.msg_id p.msg_id)
    then p ∷ rest
    else p ∷ ps

-- The loop of `log`: `done`, the buffer and the pieces printed.
unfoldable pub flush : ℤ → List LogPiece → ℤ × List LogPiece × List LogPiece
flush done [] = (done, [], [])
flush done (p ∷ buffer) =
    let (done', buffer', printed) = flush (max_ℤ done p.msg_id) buffer in
    if leb_ℤ p.msg_id (succ_ℤ done) then (done', buffer', p ∷ printed) else (done, p ∷ buffer, [])

abbrev pub Printed : Type 0
Printed = List (String × LogPiece)

-- The lines that are printed for the pieces of a source.
abbrev pub lines : String → List LogPiece → Printed
lines source [] = []
lines source (p ∷ ps) = (source, p) ∷ lines source ps

pub record Service : Type 0 where
  pub done_ : String → ℤ
  pub buffer_ : String → List LogPiece

abbrev pub assign {ℓ} : {V : Type ℓ} → String → V → (String → V) → String → V
assign k v m j = if str_eq j k then v else m j

-- What `log` leaves of the service, and what it prints, once the loop is over.
abbrev pub settle : String → Service → ℤ × List LogPiece × List LogPiece → Service × Printed
settle source s (done, buffer, printed) = (
  record { done_ = assign source done s.done_; buffer_ = assign source buffer s.buffer_ },
  lines source printed,
)

unfoldable pub log : ℤ → String → ℤ → String → Service → Service × Printed
log level source msg_id message s =
    let piece : LogPiece = record { msg_id = msg_id; level = level; message = message } in
    settle source s (flush (s.done_ source) (insert piece (s.buffer_ source)))

-- `done_` and `buffer_` of a new service.
abbrev pub fresh : Service
fresh = record { done_ = λ _. pos 0; buffer_ = λ _. [] }
