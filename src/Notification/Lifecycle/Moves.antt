-- ===== src/Notification/Lifecycle/Moves.antt =====
-- Database calls that keep the ids of the outbox apart and move its rows along the diagram of
-- statuses: how such calls are put together.
use chattea_be.Prelude.{
  ◌≡◌, refl, ◌∙◌, Bool, true, false, List, [], ◌∷◌, ◌++◌, arith, if◌then◌else◌, update_where, any,
  any-snoc, Each, Each-map,
}
use chattea_be.Prelude.Action.{Result, ok, err, transaction, gets, lift, ◌>>=◌, throw_if}
use chattea_be.Notification.Types.{queued, PushJob, NotificationDb, NotificationError}
use chattea_be.Notification.Outbox.{Notifications}
use chattea_be.Notification.Outbox.Claims.{has_same_id, IsDistinct}
use chattea_be.Notification.Lifecycle.{
  Op, creates, Advances, Advances-refl, Advances-trans, Advances-update_where, Advances-snoc,
  IsMove,
}

-- What a call of a kind does to the outbox.
pub record Follows (op : Op) (js ks : List PushJob) : Type 0 where
  pub distinct : IsDistinct ks
  pub advances : Advances op js ks

pub record Moves (op : Op) {A : Type 0} (m : Notifications A) : Type 0 where
  pub follows : (db : NotificationDb) → IsDistinct db.outbox → Follows op db.outbox (m db).1.outbox

any-update_where :
    (i : PushJob) (p : PushJob → Bool) (f : PushJob → PushJob) (js : List PushJob)
    → Each (λ j. p j ≡ true → (f j).id ≡ j.id) js
    → any (has_same_id i) (update_where p f js) ≡ any (has_same_id i) js
unfolding any update_where
any-update_where i p f [] moves = refl
any-update_where i p f (j ∷ js) (m, ms) = ground (arith, m, any-update_where i p f js ms)

same-id :
    (p : PushJob → Bool) (f : PushJob → PushJob) (j : PushJob) (js : List PushJob)
    → (p j ≡ true → (f j).id ≡ j.id)
    → any (has_same_id (if p j then f j else j)) js ≡ any (has_same_id j) js
same-id p f j js m = ground (arith, m)

IsDistinct-update_where :
    (p : PushJob → Bool) (f : PushJob → PushJob) (js : List PushJob)
    → Each (λ j. p j ≡ true → (f j).id ≡ j.id) js
    → IsDistinct js
    → IsDistinct (update_where p f js)
unfolding update_where
IsDistinct-update_where p f [] moves d = tt
IsDistinct-update_where p f (j ∷ js) (m, ms) (new, d) = (
  (same-id p f j (update_where p f js) m ∙ any-update_where j p f js ms) ∙ new,
  IsDistinct-update_where p f js ms d,
)

IsDistinct-snoc :
    (k : PushJob) (js : List PushJob)
    → any (has_same_id k) js ≡ false
    → IsDistinct js
    → IsDistinct (js ++ k ∷ [])
unfolding any
IsDistinct-snoc k [] h d = (refl, tt)
IsDistinct-snoc k (j ∷ js) h (new, d) =
    (ground (arith, any-snoc (has_same_id j) js k), IsDistinct-snoc k js (ground arith) d)

module _ {op : Op} where
  pub Follows-refl : (js : List PushJob) → IsDistinct js → Follows op js js
  Follows-refl js d = record { distinct = d; advances = Advances-refl js }

  pub Follows-trans :
      {js ks ls : List PushJob} → Follows op js ks → Follows op ks ls → Follows op js ls
  Follows-trans f g = record {
    distinct = g.distinct;
    advances = Advances-trans f.advances g.advances;
  }

  pub Follows-update_where :
      (p : PushJob → Bool) (f : PushJob → PushJob) (js : List PushJob)
      → IsDistinct js
      → Each (λ j. p j ≡ true → IsMove op j (f j)) js
      → Follows op js (update_where p f js)
  Follows-update_where p f js d moves = record {
    distinct = IsDistinct-update_where p f js (Each-map (λ j m h. (m h).0) js moves) d;
    advances = Advances-update_where p f js moves;
  }

  pub Follows-snoc :
      (k : PushJob) (js : List PushJob)
      → creates op ≡ true
      → k.status ≡ queued
      → any (has_same_id k) js ≡ false
      → IsDistinct js
      → Follows op js (js ++ k ∷ [])
  Follows-snoc k js c q h d = record {
    distinct = IsDistinct-snoc k js h d;
    advances = Advances-snoc k c q (Advances-refl js);
  }

  module _ {A : Type 0} where
    -- A call that writes nothing to the outbox.
    pub Moves-still :
        (m : Notifications A) → ((db : NotificationDb) → (m db).1.outbox ≡ db.outbox) → Moves op m
    Moves-still m still = record { follows = λ db d. rw (still db) (Follows-refl db.outbox d) }

    transaction-Follows :
        (db : NotificationDb) (r : Result NotificationError A) (db' : NotificationDb)
        → IsDistinct db.outbox
        → Follows op db.outbox db'.outbox
        → Follows op db.outbox (transaction (λ _. (r, db')) db).1.outbox
    transaction-Follows db (ok a) db' d f = f
    transaction-Follows db (err e) db' d f = Follows-refl db.outbox d

    pub Moves-transaction : (m : Notifications A) → Moves op m → Moves op (transaction m)
    Moves-transaction m h = record {
      follows = λ db d. transaction-Follows db (m db).0 (m db).1 d (h.follows db d);
    }

    pub Moves-if :
        (b : Bool) (m n : Notifications A) → Moves op m → Moves op n → Moves op (if b then m else n)
    Moves-if true m n h k = h
    Moves-if false m n h k = k

  module _ {A B : Type 0} where
    bind-Follows :
        (js : List PushJob) (r : Result NotificationError A) (db : NotificationDb)
        (k : A → Notifications B)
        → Follows op js db.outbox
        → ((a : A) → Moves op (k a))
        → Follows op js (((λ _. (r, db)) >>= k) db).1.outbox
    bind-Follows js (ok a) db k f g = Follows-trans f ((g a).follows db f.distinct)
    bind-Follows js (err e) db k f g = f

    pub Moves-bind :
        (m : Notifications A) (k : A → Notifications B)
        → Moves op m
        → ((a : A) → Moves op (k a))
        → Moves op (m >>= k)
    Moves-bind m k h g = record {
      follows = λ db d. bind-Follows db.outbox (m db).0 (m db).1 k (h.follows db d) g;
    }

    pub Moves-gets :
        (f : NotificationDb → A) (k : A → Notifications B)
        → ((a : A) → Moves op (k a))
        → Moves op (gets f >>= k)
    Moves-gets f k g = record { follows = λ db d. (g (f db)).follows db d }

    pub Moves-lift :
        (r : Result NotificationError A) (k : A → Notifications B)
        → ((a : A) → r ≡ ok a → Moves op (k a))
        → Moves op (lift r >>= k)
    Moves-lift (ok a) k g = g a refl
    Moves-lift (err e) k g = record { follows = λ db d. Follows-refl db.outbox d }

  module _ {B : Type 0} where
    pub Moves-throw_if :
        (b : Bool) (e : NotificationError) (k : Unit → Notifications B)
        → (b ≡ false → Moves op (k tt))
        → Moves op (throw_if b e >>= k)
    Moves-throw_if true e k g = record { follows = λ db d. Follows-refl db.outbox d }
    Moves-throw_if false e k g = g refl
