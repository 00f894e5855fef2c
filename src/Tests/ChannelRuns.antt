-- ===== src/Tests/ChannelRuns.antt =====
-- Runs of src/lib/channel.c.
use hairgap.Channel.{new}
use hairgap.Channel.Queue
use hairgap.Channel.Queue.{Op, put, take_one, kill, Reply, sent, got, refused, waits, killed}
use hairgap.Channel.Refine.{run, step, new_refines}
use hairgap.Prelude.{ℕ, ◌≡◌, refl, false, List, [], ◌∷◌, arith}

abbrev script : List (Op ℕ)
script =
    put 1
    ∷ put 2
    ∷ put 3
    ∷ take_one
    ∷ put 4
    ∷ take_one
    ∷ take_one
    ∷ take_one
    ∷ kill
    ∷ put 5
    ∷ take_one
    ∷ []

script_runs :
    run (new 4 2 (0 ∷ 0 ∷ 0 ∷ [])) script
    ≡ sent ∷ sent ∷ waits ∷ got 1 ∷ sent ∷ got 2 ∷ got 4 ∷ waits ∷ killed ∷ refused ∷ refused ∷ []
unfolding run step new
script_runs = refl

new_refines_example :
    run (new 4 2 (0 ∷ 0 ∷ 0 ∷ [])) script ≡ Queue.run 2 (record { items = []; dead = false }) script
new_refines_example = new_refines 4 2 (0 ∷ 0 ∷ 0 ∷ []) script (omega arith) (omega arith)
