-- ===== src/Buffer/Guard/Examples.antt =====
-- Guards in a run, and the theorem at it.
use one_base.Base.{◌+◌, ◌≡◌, refl, true, false, none, some, [], ◌∷◌, arith}
use one_base.Buffer.Guard.{
  basic, write, latch, unlatch, unpin, Guards, construct, drop, move_construct, move_assign,
  get_data_mut,
}
use one_base.Buffer.Guard.Balance.{
  started, constructed, dropped, move_assigned, marked, unpins, held, Run-balanced,
}

program : Unit {0}
unfolding construct drop move_construct move_assign get_data_mut
program = tt

-- No guard owns a page.
abbrev idle : Guards
idle = record { guard = λ g. record { kind = basic; page = none; is_dirty = false }; calls = [] }

-- A basic guard of page 7, marked dirty, and one of page 8; the second is assigned from the first,
-- and then dropped.
abbrev two : Guards
two = construct (get_data_mut (construct idle 0 basic (some 7)) 0) 1 basic (some 8)

abbrev final : Guards
final = drop (move_assign two 1 0) 1

final_calls : final.calls ≡ unpin 7 true ∷ unpin 8 false ∷ []
unfolding program
final_calls = refl

write_calls :
    (drop (construct idle 0 write (some 7)) 0).calls
    ≡ unpin 7 true ∷ unlatch write 7 ∷ latch write 7 ∷ []
unfolding program
write_calls = refl

Run-balanced_example : unpins 7 final.calls + held 7 2 final.guard ≡ 1
unfolding program
Run-balanced_example = Run-balanced 2 7 (some 8 ∷ some 7 ∷ []) final (
    dropped 1 (omega arith) (
      move_assigned 1 0 (omega arith) (omega arith) (
        constructed 1 basic (some 8) (omega arith) refl (
          marked 0 (omega arith)
            (constructed 0 basic (some 7) (omega arith) refl (started idle (λ g. refl) refl))))))
