-- ===== src/Examples/Storage.antt =====
-- The theorems about the store of apps/action-gateway/src/domain/store.ts at concrete inputs.
use pooli.Base.{[], ◌∷◌, codes, text_eq, ◌≡◌, refl}
use pooli.Domain.Store.{empty}
use pooli.Domain.Machine.{create_proposal, applied}
use pooli.Domain.Store.Table.{
  getting, finding, inserting, swapping, row, row_of_key, insert_row, update, replace, on_table,
  store_answers, table_answers,
}
use pooli.Domain.Store.Refinement.{answers_refine}
use pooli.Examples.{proposal, approved}

answers_refine_example :
    store_answers
      (inserting proposal ∷ swapping approved 1 ∷ finding (codes "k") ∷ getting (codes "p") ∷ [])
      empty
    ≡ table_answers
        (inserting proposal ∷ swapping approved 1 ∷ finding (codes "k") ∷ getting (codes "p") ∷ [])
        []
unfolding create_proposal on_table insert_row row row_of_key update replace text_eq applied
answers_refine_example =
    answers_refine
      (inserting proposal ∷ swapping approved 1 ∷ finding (codes "k") ∷ getting (codes "p") ∷ [])
      (refl, ((refl, refl), (tt, (tt, tt))))
