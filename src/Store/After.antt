-- ===== src/Store/After.antt =====
-- The database that a run leaves.
use monierave.Base.{◌≡◌, subst}
use monierave.Models.{Error}
use monierave.Models.Tables.{Db}
use monierave.Store.{World, Tx, Result, ok, err}
use monierave.Store.Rules.{Runs, Post}

-- The database that a run leaves, whether it returned a value or an error.
abbrev pub after : {A : Type 0} → Tx A → World → Db → Db
after m w d = (m (record w { db = d })).1.db

module _ {A : Type 0} (I : Db → Type 0) where
  Post_after : (r : Result A × World) → Post (λ _ d. I d) (λ _ d. I d) r → I r.1.db
  Post_after (ok a, w) h = h
  Post_after (err e, w) h = h

  -- What an operation keeps however it ends holds of the database that it leaves.
  pub kept_after :
      {m : Tx A} {d : Db} (w : World) → Runs (λ _ d'. I d') (λ _ d'. I d') m d → I (after m w d)
  kept_after {m} {d} w h = Post_after (m (record w { db = d })) (h.at w)

-- What a run that returned a value came to.
pub returned :
    {A : Type 0} {E : Error → Db → Type 0} {Q : A → Db → Type 0} {m : Tx A} (w w1 : World) (a : A)
    → m w ≡ (ok a, w1)
    → Runs E Q m w.db
    → Q a w1.db
returned {A} {E} {Q} {m} w w1 a e h = subst (Post E Q) e (h.at w)
