-- ===== src/Base/ThreadPool/Life/Runs.antt =====
-- The life of a pool of two threads.
use simple_rpc.Prelude.{ℕ, ◌≡◌, refl, List, [], ◌∷◌, none, some, arith}
use simple_rpc.Prelude.Fault.{Gives, ◌>>=◌}
use simple_rpc.Prelude.Dict.{count}
use simple_rpc.Base.ThreadPool.{push_at, run_async, turn, pick, steal}
use simple_rpc.Base.ThreadPool.Life.{
  Event, submit, turn_of, stop, pill, shuffle, steal_order, new_threads, new_crew, step, steps,
  run_left_over,
}
use simple_rpc.Base.ThreadPool.Life.Whole.{new_crew-once}

shuffled : steal_order 3 (2 ∷ 0 ∷ []) ≡ some (2 ∷ 1 ∷ 0 ∷ [])
unfolding steal_order shuffle
shuffled = refl

abbrev draws : List (List ℕ)
draws = (1 ∷ []) ∷ (0 ∷ []) ∷ []

-- Three jobs, of which the first thread runs one; one comes after the end has been asked for.
abbrev events : List Event
events =
    submit 7 none
    ∷ submit 8 (some 1)
    ∷ turn_of 0
    ∷ submit 9 none
    ∷ stop
    ∷ submit 10 none
    ∷ pill 0
    ∷ turn_of 1
    ∷ pill 1
    ∷ []

new_crew-once_example :
    Gives
      (λ c. (j : ℕ) → count j (run_left_over c).ran ≡ count j c.accepted)
      (new_crew draws >>= steps events)
new_crew-once_example =
    new_crew-once draws events (omega arith) (refl, (refl, tt))
      (tt, (tt, (omega arith, (tt, (tt, (tt, (omega arith, (omega arith, (omega arith, tt)))))))))

ends : Gives (λ c. c.accepted ≡ 9 ∷ 8 ∷ 7 ∷ []) (new_crew draws >>= steps events)
unfolding new_crew new_threads steal_order shuffle steps step run_async push_at turn pick steal
ends = Gives.gives refl
