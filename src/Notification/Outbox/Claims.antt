-- ===== src/Notification/Outbox/Claims.antt =====
-- Which rows a claim of src/modules/notification/notification.repository.ts takes, when no two rows
-- of the outbox share an id.
use chattea_be.Prelude.{
  ℕ, ◌≡◌, refl, Bool, true, false, ◌&&◌, ◌||◌, List, [], ◌∷◌, arith, ◌==◌, any, select, take, map,
  Each, Each-zip, Each-of_any, any-take, any-select,
}
use chattea_be.Notification.Types.{PushJob}
use chattea_be.Notification.Outbox.{insert_job, sort_jobs, batch_ids, has_id}

abbrev pub has_same_id : PushJob → PushJob → Bool
has_same_id j k = k.id == j.id

abbrev pub IsDistinct : List PushJob → Type 0
IsDistinct [] = Unit
IsDistinct (j ∷ js) = (any (has_same_id j) js ≡ false) × IsDistinct js

module _ (p : PushJob → Bool) (before : PushJob → PushJob → Bool) where
  any-insert_job :
      (j : PushJob) (js : List PushJob) → any p (insert_job before j js) ≡ (p j || any p js)
  unfolding insert_job any
  any-insert_job j [] = refl
  any-insert_job j (k ∷ ks) = ground (arith, any-insert_job j ks)

  any-sort_jobs : (js : List PushJob) → any p (sort_jobs before js) ≡ any p js
  unfolding sort_jobs any
  any-sort_jobs [] = refl
  any-sort_jobs (j ∷ js) = ground (arith, any-insert_job j (sort_jobs before js), any-sort_jobs js)

any-ids :
    (i : ℕ) (js : List PushJob) → any (λ id. id == i) (map (λ j. j.id) js) ≡ any (λ j. j.id == i) js
unfolding any
any-ids i [] = refl
any-ids i (j ∷ js) = ground (arith, any-ids i js)

-- Who is in a batch shares the id of a row that was due.
pub has_id-batch_ids :
    (due : PushJob → Bool) (before : PushJob → PushJob → Bool) (limit : ℕ) (js : List PushJob)
    (j : PushJob)
    → has_id (batch_ids due before limit js) j ≡ true
    → any (λ k. due k && has_same_id j k) js ≡ true
unfolding batch_ids
has_id-batch_ids due before limit js j h = ground (
  arith,
  any-ids j.id (take limit (sort_jobs before (select due js))),
  any-take (has_same_id j) limit (sort_jobs before (select due js)),
  any-sort_jobs (has_same_id j) before (select due js),
  any-select (has_same_id j) due js,
)

apart :
    (due : PushJob → Bool) (j : PushJob) (js : List PushJob)
    → any (has_same_id j) js ≡ false
    → any (λ k. due k && has_same_id j k) js ≡ false
unfolding any
apart due j [] h = refl
apart due j (k ∷ ks) h = ground (arith, apart due j ks)

-- A row of the table that shares an id with a row that is due is that row.
pub is_due :
    (due : PushJob → Bool) (js : List PushJob)
    → IsDistinct js
    → Each (λ j. any (λ k. due k && has_same_id j k) js ≡ true → due j ≡ true) js
unfolding any
is_due due [] h = tt
is_due due (j ∷ js) (new, later) = (
  (λ h. ground (arith, apart due j js new)),
  Each-zip (λ k other ih h. ground (arith, ih)) js (Each-of_any (has_same_id j) js new)
      (is_due due js later),
)
