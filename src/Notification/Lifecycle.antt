-- ===== src/Notification/Lifecycle.antt =====
-- The life of a push message, as a diagram of its statuses, and the statements of
-- src/modules/notification/notification.repository.ts against it.
pub mod Moves
pub mod Steps
use mathlib.Core.List.{Memᴰ}
use chattea_be.Prelude.{
  ℕ, ◌≡◌, refl, ◌∙◌, Bool, true, false, List, [], ◌∷◌, ◌++◌, arith, update_where, if◌then◌else◌,
  Each,
}
use chattea_be.Notification.Types.{
  PushStatus, queued, sending, receipt_pending, receipt_checking, delivered, failed_permanent,
  exhausted, cancelled, PushJob, is_open, SendKind, accepted, retry, permanent, gave_up,
  ReceiptKind, arrived, retry_receipt, receipt_permanent, receipt_gave_up,
}

-- What a call of the repository does to the messages that are there; one that brings results has
-- their kinds.
pub data Op : Type 0 where
  reading creating revoking claiming checking : Op
  settling : List SendKind → Op
  concluding : List ReceiptKind → Op

-- The calls that may cancel other messages of a token that is no longer there.
abbrev pub cancels : Op → Bool
cancels revoking = true
cancels (settling ks) = true
cancels (concluding ks) = true
cancels _ = false

abbrev pub creates : Op → Bool
creates creating = true
creates _ = false

-- The diagram: by which call a message goes from one status to the next.
pub data Edge : Op → PushStatus → PushStatus → Type 0 where
  claim : Edge claiming queued sending
  claim_again : Edge claiming sending sending
  accept : {ks : List SendKind} → Memᴰ accepted ks → Edge (settling ks) sending receipt_pending
  send_later : {ks : List SendKind} → Memᴰ retry ks → Edge (settling ks) sending queued
  refuse : {ks : List SendKind} → Memᴰ permanent ks → Edge (settling ks) sending failed_permanent
  give_up : {ks : List SendKind} → Memᴰ gave_up ks → Edge (settling ks) sending exhausted
  check : Edge checking receipt_pending receipt_checking
  check_again : Edge checking receipt_checking receipt_checking
  deliver :
      {ks : List ReceiptKind} → Memᴰ arrived ks → Edge (concluding ks) receipt_checking delivered
  check_later :
      {ks : List ReceiptKind}
      → Memᴰ retry_receipt ks
      → Edge (concluding ks) receipt_checking receipt_pending
  reject :
      {ks : List ReceiptKind}
      → Memᴰ receipt_permanent ks
      → Edge (concluding ks) receipt_checking failed_permanent
  stop_checking :
      {ks : List ReceiptKind}
      → Memᴰ receipt_gave_up ks
      → Edge (concluding ks) receipt_checking exhausted
  cancel : {op : Op} {s : PushStatus} → cancels op ≡ true → is_open s ≡ true → Edge op s cancelled

-- Edges of one call, one after another.
pub data Reaches (op : Op) : PushStatus → PushStatus → Type 0 where
  stay : {s : PushStatus} → Reaches op s s
  step : {s t u : PushStatus} → Edge op s t → Reaches op t u → Reaches op s u

pub Reaches-trans :
    {op : Op} {s t u : PushStatus} → Reaches op s t → Reaches op t u → Reaches op s u
Reaches-trans stay q = q
Reaches-trans (step e p) q = step e (Reaches-trans p q)

creates_no_edge : {op : Op} {s t : PushStatus} → Edge op s t → creates op ≡ false
creates_no_edge claim = refl
creates_no_edge claim_again = refl
creates_no_edge (accept m) = refl
creates_no_edge (send_later m) = refl
creates_no_edge (refuse m) = refl
creates_no_edge (give_up m) = refl
creates_no_edge check = refl
creates_no_edge check_again = refl
creates_no_edge (deliver m) = refl
creates_no_edge (check_later m) = refl
creates_no_edge (reject m) = refl
creates_no_edge (stop_checking m) = refl
creates_no_edge (cancel {op} c o) = ground arith

creating_stays : {op : Op} {s t : PushStatus} → creates op ≡ true → Reaches op s t → t ≡ s
creating_stays c stay = refl
creating_stays c (step e p) = ground (arith, creates_no_edge e)

-- Rows that stay in place, each further along the diagram by the edges of the call, with new rows
-- behind them, which are queued, when the call creates rows.
pub data Advances (op : Op) : List PushJob → List PushJob → Type 0 where
  rest : Advances op [] []
  advance :
      {j k : PushJob} {js ks : List PushJob}
      → k.id ≡ j.id
      → Reaches op j.status k.status
      → Advances op js ks
      → Advances op (j ∷ js) (k ∷ ks)
  create :
      {k : PushJob} {ks : List PushJob}
      → creates op ≡ true
      → k.status ≡ queued
      → Advances op [] ks
      → Advances op [] (k ∷ ks)

-- A row moves along the diagram and keeps its id.
abbrev pub IsMove : Op → PushJob → PushJob → Type 0
IsMove op j k = (k.id ≡ j.id) × Reaches op j.status k.status

module _ {op : Op} where
  pub Advances-refl : (js : List PushJob) → Advances op js js
  Advances-refl [] = rest
  Advances-refl (j ∷ js) = advance refl stay (Advances-refl js)

  pub Advances-trans :
      {js ks ls : List PushJob} → Advances op js ks → Advances op ks ls → Advances op js ls
  Advances-trans rest s = s
  Advances-trans (advance i p r) (advance k q s) =
      advance (k ∙ i) (Reaches-trans p q) (Advances-trans r s)
  Advances-trans (create c p r) (advance k q s) =
      create c (creating_stays c q ∙ p) (Advances-trans r s)

  pub Advances-row :
      {js ks : List PushJob} (j : PushJob) (p : Bool) (k : PushJob)
      → (p ≡ true → IsMove op j k)
      → Advances op js ks
      → Advances op (j ∷ js) ((if p then k else j) ∷ ks)
  Advances-row j false k moves later = advance refl stay later
  Advances-row j true k moves later = let (i, q) = moves refl in advance i q later

  -- An update whose rows each move along the diagram.
  pub Advances-update_where :
      (p : PushJob → Bool) (f : PushJob → PushJob) (js : List PushJob)
      → Each (λ j. p j ≡ true → IsMove op j (f j)) js
      → Advances op js (update_where p f js)
  unfolding update_where
  Advances-update_where p f [] moves = rest
  Advances-update_where p f (j ∷ js) (m, ms) =
      Advances-row j (p j) (f j) m (Advances-update_where p f js ms)

  pub Advances-snoc :
      {js ks : List PushJob} (k : PushJob)
      → creates op ≡ true
      → k.status ≡ queued
      → Advances op js ks
      → Advances op js (ks ++ k ∷ [])
  Advances-snoc k c h rest = create c h rest
  Advances-snoc k c h (advance i p r) = advance i p (Advances-snoc k c h r)
  Advances-snoc k c h (create d p r) = create d p (Advances-snoc k c h r)
