-- ===== src/Rpc/Unbounded.antt =====
-- UnboundedBuffer of rpc/buffer.h and rpc/buffer.cc: the text of its members is that of the members of
-- Marshal, with the name of the class in its place.
use simple_rpc.Prelude.{ℕ, Bool, List}
use simple_rpc.Rpc.Buffer.{Chunk}
use simple_rpc.Rpc.Buffer.Store.{Cmd}
use simple_rpc.Rpc.Marshal
use simple_rpc.Rpc.Marshal.{Marshal}
use simple_rpc.Rpc.Marshal.Slice
use simple_rpc.Rpc.Marshal.Send
use simple_rpc.Rpc.Marshal.Receive
use simple_rpc.Rpc.Marshal.Bookmark

abbrev pub UnboundedBuffer : Type 0
UnboundedBuffer = Marshal

abbrev pub content_size_slow : List Chunk → Cmd ℕ
content_size_slow = Marshal.size_slow

abbrev pub content_size : UnboundedBuffer → Cmd ℕ
content_size = Marshal.content_size

abbrev pub empty : UnboundedBuffer → Cmd Bool
empty = Marshal.empty

abbrev pub write : UnboundedBuffer → List ℕ → Cmd (UnboundedBuffer × ℕ)
write = Marshal.write

abbrev pub read : UnboundedBuffer → ℕ → Cmd (UnboundedBuffer × List ℕ)
read = Marshal.read

abbrev pub peek : UnboundedBuffer → ℕ → Cmd (List ℕ)
peek = Marshal.peek

abbrev pub read_from_fd : List (List ℕ) → UnboundedBuffer → Cmd (UnboundedBuffer × List ℕ)
read_from_fd = Receive.read_from_fd

abbrev pub read_from_marshal :
    ℕ → UnboundedBuffer → UnboundedBuffer → ℕ → Cmd (UnboundedBuffer × UnboundedBuffer)
read_from_marshal = Slice.read_from_marshal

abbrev pub write_to_fd : List ℕ → UnboundedBuffer → Cmd (UnboundedBuffer × List ℕ)
write_to_fd = Send.write_to_fd

abbrev pub set_bookmark : ℕ → UnboundedBuffer → Cmd (UnboundedBuffer × List (ℕ × ℕ))
set_bookmark = Bookmark.set_bookmark

abbrev pub write_bookmark : List (ℕ × ℕ) → List ℕ → Cmd (Unit {0})
write_bookmark = Bookmark.write_bookmark

abbrev pub get_and_reset_write_cnt : UnboundedBuffer → UnboundedBuffer × ℕ
get_and_reset_write_cnt = Bookmark.get_and_reset_write_cnt

-- `~UnboundedBuffer()`
abbrev pub destroy : List Chunk → Cmd (Unit {0})
destroy = Marshal.destroy
