-- ===== src/Rpc/Marshal/Slice/Frames.antt =====
-- What a read and a write leave of the chunks of another object.
use simple_rpc.Prelude.{ℕ, refl, sym, ap, ◌∙◌, List, [], ◌∷◌, length, get_elem?-lt-length}
use simple_rpc.Rpc.Buffer.{Chunk}
use simple_rpc.Rpc.Buffer.Store.{Store}
use simple_rpc.Rpc.Marshal.{Marshal}
use simple_rpc.Rpc.Marshal.Chain.{Apart, Chain, IsValid, Same, Chain-Same, content-Same}
use simple_rpc.Rpc.Marshal.Took.{Took}
use simple_rpc.Rpc.Marshal.Wrote.{Wrote}
use simple_rpc.Rpc.Marshal.Slice.Join.{Disjoint}

-- What a read leaves of the chunks of another object, and what a write does.
pub Same-Took :
    {st st' : Store} {cs cs' : List Chunk} {n : ℕ} {p : List ℕ} (ds : List Chunk)
    → Took st cs n cs' p st'
    → Disjoint ds cs
    → Same st st' ds × Disjoint ds cs'
Same-Took [] w dis = (tt, tt)
Same-Took (d ∷ ds) w (a, dis) =
    let (e, b) = w.frame d.data_ a in let (es, bs) = Same-Took ds w dis in ((e, es), (b, bs))

pub Same-Wrote :
    {st st' : Store} {cs cs' : List Chunk} {p : List ℕ} (ds : List Chunk)
    → Wrote st cs p cs' st'
    → Chain st ds
    → Disjoint ds cs
    → Same st st' ds × Disjoint ds cs'
Same-Wrote [] w h dis = (tt, tt)
Same-Wrote {st} (d ∷ ds) w (h, j, i, hs) (a, dis) =
    let (e, b) = w.frame d.data_ (get_elem?-lt-length st d.data_ h.here) a in
    let (es, bs) = Same-Wrote ds w hs dis in ((e, es), (b, bs))

Apart-Disjoint : (d : Chunk) (ds cs : List Chunk) → Disjoint ds (d ∷ cs) → Apart d.data_ ds
Apart-Disjoint d [] cs dis = tt
Apart-Disjoint d (e ∷ ds) cs ((ne, _), dis) = ((λ q. ne (sym q)), Apart-Disjoint d ds cs dis)

Disjoint-tail : (d : Chunk) (ds cs : List Chunk) → Disjoint ds (d ∷ cs) → Disjoint ds cs
Disjoint-tail d [] cs dis = tt
Disjoint-tail d (e ∷ ds) cs ((_, a), dis) = (a, Disjoint-tail d ds cs dis)

pub Disjoint-sym : (ds cs : List Chunk) → Disjoint ds cs → Disjoint cs ds
Disjoint-sym ds [] dis = tt
Disjoint-sym ds (c ∷ cs) dis =
    (Apart-Disjoint c ds cs dis, Disjoint-sym ds cs (Disjoint-tail c ds cs dis))

pub IsValid-Same :
    {st st' : Store} (m : Marshal) → Same st st' m.chunks → IsValid st m → IsValid st' m
IsValid-Same {st} {st'} m s v = record {
  chain = Chain-Same st st' m.chunks s v.chain;
  counted = v.counted ∙ sym (ap length (content-Same st st' m.chunks s));
}

pub Same-refl : (st : Store) (cs : List Chunk) → Same st st cs
Same-refl st [] = tt
Same-refl st (c ∷ cs) = (refl, Same-refl st cs)
