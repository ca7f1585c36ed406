-- ===== src/LinkedList/Tests.antt =====
-- The theorems about lists at concrete lists.
use night_os.Base.{refl, none, some, [], ◌∷◌, arith, Returns, if◌then◌else◌, ◌==◌}
use night_os.LinkedList.{Cells, LinkedList, create, delete}
use night_os.LinkedList.Chain.{Seg, Away, Distinct}
use night_os.LinkedList.Delete.{IsList, Deleted, delete-Deleted}
use night_os.LinkedList.Refine.{
  insert_item, find_item, delete_item, spec_all, perform_all, AllAgree, AreFree,
  run_refines_sequence,
}

abbrev empty : LinkedList
empty = create (λ a. none)

abbrev cells : Cells
cells a =
    if a == 8
    then some (record { prev = none; next = some 16; value = 5 })
    else if a == 16
    then some (record { prev = some 8; next = none; value = 6 })
    else none

-- 5 at the address 8, and 6 at 16
abbrev two : LinkedList
two = record { head = some 8; tail = some 16; length = 2; cells = cells }

two-IsList : IsList two ((8, 5) ∷ (16, 6) ∷ [])
unfolding Seg Distinct Away
two-IsList = record {
  starts = refl;
  ends = refl;
  counted = refl;
  fits = omega arith;
  linked = (refl, (refl, tt));
  distinct = (((λ e. omega (arith, e)), tt), (tt, tt));
}

delete-Deleted_example : Returns (delete 16 two) (Deleted two ((8, 5) ∷ []) 16 6 [])
delete-Deleted_example = delete-Deleted two ((8, 5) ∷ []) 16 6 [] two-IsList

calls-AreFree : AreFree (insert_item 24 7 ∷ find_item 6 ∷ delete_item 5 ∷ []) two
unfolding AreFree
calls-AreFree = (refl, λ l b e. (tt, λ l b e. (tt, λ l b e. tt)))

run_refines_sequence_example :
    AllAgree
      (perform_all (insert_item 24 7 ∷ find_item 6 ∷ delete_item 5 ∷ []) two)
      (spec_all (insert_item 24 7 ∷ find_item 6 ∷ delete_item 5 ∷ []) (5 ∷ 6 ∷ []))
run_refines_sequence_example =
    run_refines_sequence (insert_item 24 7 ∷ find_item 6 ∷ delete_item 5 ∷ []) two (5 ∷ 6 ∷ [])
      ((8, 5) ∷ (16, 6) ∷ [], two-IsList, refl) calls-AreFree (omega arith)
