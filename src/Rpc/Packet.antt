-- ===== src/Rpc/Packet.antt =====
-- The packets of rpc/client.cc and rpc/server.cc: their size, in 4 bytes that are set aside and written
-- when the rest is there, and the rest.
pub mod Complete
mod Runs
use simple_rpc.Prelude.{
  ℕ, ◌+◌, ◌/◌, ◌%◌, ◌^◌, ◌≡◌, refl, sym, ap, ◌∙◌, arith, ◌==◌, ◌-◌, ltb, leb, if◌then◌else◌, List,
  [], Option, none, some, ◌++◌, length, length-append, append_assoc, append-nil,
}
use simple_rpc.Prelude.Bytes.{le_bytes, of_le_bytes, length-le_bytes}
use simple_rpc.Rpc.Buffer.Store.{Store, Cmd, pure, ◌>>=◌, ◌>>◌}
use simple_rpc.Rpc.Buffer.Returns
use simple_rpc.Rpc.Buffer.Returns.{Returns, returns}
use simple_rpc.Rpc.Marshal
use simple_rpc.Rpc.Marshal.{Marshal, content_size}
use simple_rpc.Rpc.Marshal.Chain.{content, IsValid}
use simple_rpc.Rpc.Marshal.Bookmark.{write_bookmark, set_bookmark, get_and_reset_write_cnt}
use simple_rpc.Rpc.Marshal.Bookmark.Mark.{Marks, Marks-Kept, set_bookmark-Set}
use simple_rpc.Rpc.Marshal.Bookmark.Fill.{write_bookmark-Overwrote}
use simple_rpc.Rpc.Stream.Codec.{Appended}

-- `i32 size = out_.get_and_reset_write_cnt(); out_.write_bookmark(bmark_, &size);`
unfoldable pub write_size : List (ℕ × ℕ) → Marshal → Cmd Marshal
write_size bm m = do
  let (m', size) = get_and_reset_write_cnt m
  write_bookmark bm (le_bytes 4 size)
  pure m'

-- `if (bmark_ != nullptr) { ... }` of `end_request` and `end_reply`
unfoldable pub end_packet : Option (List (ℕ × ℕ)) → Marshal → Cmd Marshal
end_packet none m = pure m
end_packet (some bm) m = write_size bm m

-- Pollable::READ, and Pollable::READ | Pollable::WRITE
abbrev pub mode_read : ℕ
mode_read = 1

abbrev pub mode_read_write : ℕ
mode_read_write = 3

-- The i32 `packet_size` as a size_t.
abbrev pub as_size : ℕ → ℕ
as_size w = if ltb w (2 ^ 31) then w else w + 2 ^ 64 - 2 ^ 32

-- `n_peek == sizeof(i32) && in_.content_size() >= packet_size + sizeof(i32)`, with the size.
unfoldable pub complete : Marshal → Cmd (Option ℕ)
complete m = do
  p ← Marshal.peek m 4
  if length p == 4
      then (do
        total ← content_size m
        let packet_size = as_size (of_le_bytes p)
        pure (if leb ((packet_size + 4) % 2 ^ 64) total then some packet_size else none))
      else pure none

-- A packet on the wire.
abbrev pub packet : List ℕ → List ℕ
packet p = le_bytes 4 (length p) ++ p

-- The size is modulo 2^32.
le_bytes_four : (a b : ℕ) → a % 2 ^ 32 ≡ b % 2 ^ 32 → le_bytes 4 a ≡ le_bytes 4 b
le_bytes_four a b e =
    let e0 : a % 256 ≡ b % 256 = omega arith in
    let e1 : a / 256 % 256 ≡ b / 256 % 256 = omega arith in
    let e2 : a / 256 / 256 % 256 ≡ b / 256 / 256 % 256 = omega arith in
    let e3 : a / 256 / 256 / 256 % 256 ≡ b / 256 / 256 / 256 % 256 = omega arith in
    rw (e0, e1, e2, e3)

-- While a packet is written that has the bytes `p` so far.
pub record Begun (st : Store) (m : Marshal) (p : List ℕ) (m' : Marshal) (bm : List (ℕ × ℕ))
    (st' : Store) : Type 0 where
  pub valid : IsValid st' m'
  pub gap : List ℕ
  pub gap_size : length gap ≡ 4
  pub bytes : content st' m'.chunks ≡ content st m.chunks ++ (gap ++ p)
  pub marks : Marks m'.chunks (length (content st m.chunks)) bm
  pub places : length bm ≡ 4
  pub counted : m'.write_cnt % 2 ^ 32 ≡ length p % 2 ^ 32

pub set_bookmark-Begun :
    (st : Store) (m : Marshal)
    → IsValid st m
    → m.write_cnt ≡ 0
    → Returns (λ (m', bm) st'. Begun st m [] m' bm st') (set_bookmark 4 m st)
set_bookmark-Begun st m v unwritten =
    Returns.mono (set_bookmark-Set 4 st m v unwritten)
      λ (m', bm) st' (v', cnt, (g, size, size', w, marks)). record {
        valid = v';
        gap = g;
        gap_size = size;
        bytes = w.bytes ∙ ap (λ t. content st m.chunks ++ t) (sym (append-nil g));
        marks = marks;
        places = size';
        counted = omega (arith, cnt);
      }

pub Begun-Appended :
    {st st' st'' : Store} {m m' m'' : Marshal} {p q : List ℕ} {bm : List (ℕ × ℕ)}
    → Begun st m p m' bm st'
    → Appended st' m' q m'' st''
    → Begun st m (p ++ q) m'' bm st''
Begun-Appended {st} {m} {m'} {m''} {p} {q} {bm} b w = record {
  valid = w.valid;
  gap = b.gap;
  gap_size = b.gap_size;
  bytes =
      w.bytes
      ∙ ap (λ t. t ++ q) b.bytes
      ∙ append_assoc (content st m.chunks) (b.gap ++ p) q
      ∙ ap (λ t. content st m.chunks ++ t) (append_assoc b.gap p q);
  marks = Marks-Kept m'.chunks m''.chunks _ bm w.kept b.marks;
  places = b.places;
  counted = omega (arith, b.counted, w.counted, length-append p q);
}

-- A packet that is done.
pub record Framed (st : Store) (m : Marshal) (p : List ℕ) (m' : Marshal) (st' : Store)
    : Type 0 where
  pub valid : IsValid st' m'
  pub bytes : content st' m'.chunks ≡ content st m.chunks ++ packet p
  pub reset : m'.write_cnt ≡ 0

pub write_size-Framed :
    {st st' : Store} {m m' : Marshal} {p : List ℕ} {bm : List (ℕ × ℕ)}
    → Begun st m p m' bm st'
    → Returns (Framed st m p) (write_size bm m' st')
unfolding write_size
write_size-Framed {st} {st'} {m} {m'} {p} {bm} b =
    let size = le_bytes 4 m'.write_cnt in
    Returns.bind
      (write_bookmark-Overwrote st' m'.chunks bm (content st m.chunks) b.gap size p b.valid.chain
        b.marks (omega (arith, b.gap_size, length-le_bytes 4 m'.write_cnt))
        (omega (arith, b.places, length-le_bytes 4 m'.write_cnt)) b.bytes)
      λ _ st'' w. returns (record {
        valid = record { chain = w.chain; counted = same_size w.bytes };
        bytes =
            w.bytes
            ∙ ap (λ s. content st m.chunks ++ (s ++ p))
                (le_bytes_four m'.write_cnt (length p) b.counted);
        reset = refl;
      })
  where
    same_size :
        {after : List ℕ}
        → after ≡ content st m.chunks ++ (le_bytes 4 m'.write_cnt ++ p)
        → m'.content_size_ ≡ length after
    same_size e = omega (
      arith,
      b.valid.counted,
      ap length b.bytes,
      ap length e,
      b.gap_size,
      length-append (content st m.chunks) (b.gap ++ p),
      length-append (content st m.chunks) (le_bytes 4 m'.write_cnt ++ p),
      length-append b.gap p,
      length-append (le_bytes 4 m'.write_cnt) p,
      length-le_bytes 4 m'.write_cnt,
    )
