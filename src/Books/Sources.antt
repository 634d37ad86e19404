-- ===== src/Books/Sources.antt =====
-- The source postings of a reversal, and the opposite postings that it makes of them.

use monierave.Base.{
  ℕ, ◌≡◌, refl, Bool, true, false, List, [], ◌∷◌, Option, none, some, ℤ, pos, ◌+ℤ◌, neg64,
  Negatable, neg64-Negatable, neg64_back, int_laws, arith, ap, ◌∙◌, ◌==◌, Every, length, Bool-cases,
  inl, inr, pos_part, neg_part,
}
use monierave.Models.{Uuid, LedgerAccount, LedgerPosting, is_customer}
use monierave.Models.Tables.{Db}
use monierave.Queries.Ledger.{ledger_by_id, new_posting, with_posting}
use monierave.Queries.Reversal.{ReversalSource, reversal_sources}
use monierave.Books.Sums.{posting_sum, posting_count, book_total, sum_if, count_if}
use monierave.Books.Invariant.{SoundPosting}
use monierave.Books.Credits.{only}
use monierave.Banking.Posting.{PostingParams}
use monierave.Banking.Posting.Rules.{posted_rows}
use monierave.Banking.ReversalPlan.{opposite_posting}

-- A source is a sound posting with its ledger account.
pub record SoundSource (ledgers : List LedgerAccount) (s : ReversalSource) : Type 0 where
  pub amount : Negatable s.amount
  pub ledger : LedgerAccount
  pub found : ledger_by_id s.ledger_account_id ledgers ≡ some ledger
  pub kind : s.kind ≡ ledger.kind
  pub customer : s.customer_account_id ≡ ledger.customer_account_id

abbrev pub source_total : List ReversalSource → ℤ
source_total [] = pos 0
source_total (s ∷ ss) = s.amount +ℤ source_total ss

-- What is known of the sources of one transaction.
pub record SoundSources (u : Uuid) (ledgers : List LedgerAccount) (ps : List LedgerPosting)
    (ss : List ReversalSource) : Type 0 where
  pub every : Every (SoundSource ledgers) ss
  pub total : source_total ss ≡ posting_sum u ps
  pub count : length ss ≡ posting_count u ps

module _ (u : Uuid) (ledgers : List LedgerAccount) where
  pub reversal_sources-SoundSources :
      (ps : List LedgerPosting)
      → Every (SoundPosting ledgers) ps
      → SoundSources u ledgers ps (reversal_sources u ledgers ps)
  unfolding reversal_sources sum_if count_if
  reversal_sources-SoundSources [] h = record { every = tt; total = refl; count = refl }
  reversal_sources-SoundSources (p ∷ ps) ((n, (l, e)), h) =
      let rest = reversal_sources-SoundSources ps h in
      elim (Bool-cases (p.transaction_id == u)) [
        | inl hit ↦
            rw (hit, e)
              (record {
                every = (
                  record { amount = n; ledger = l; found = e; kind = refl; customer = refl },
                  rest.every,
                );
                total = rw hit (ap (λ x. p.amount +ℤ x) rest.total);
                count = rw hit (omega (arith, rest.count));
              })
        | inr miss ↦ rw miss (record {
          every = rest.every;
          total = rw miss (rest.total ∙ zero_first (posting_sum u ps));
          count = rw miss (omega (arith, rest.count));
        })
      ]
    where
      zero_first : (x : ℤ) → x ≡ pos 0 +ℤ x
      zero_first x = omega int_laws

abbrev pub opposites : List ReversalSource → List PostingParams
opposites [] = []
opposites (s ∷ ss) = opposite_posting s ∷ opposites ss

-- What a source's reversal does to a customer's balance.
abbrev pub change_by : Bool → Option ℕ → ℤ → ℕ → ℤ
change_by true (some c) x id = only c x id
change_by true none x id = pos 0
change_by false o x id = pos 0

abbrev pub source_change : List ReversalSource → ℕ → ℤ
source_change [] id = pos 0
source_change (s ∷ ss) id =
    change_by (is_customer s.kind) s.customer_account_id (neg64 s.amount) id +ℤ source_change ss id

module _ (u : Uuid) (ledgers : List LedgerAccount) where
  -- The opposite postings, as rows.
  pub record OppositeRows (ss : List ReversalSource) (rows : List LedgerPosting) : Type 0 where
    pub own : Every (λ (p : LedgerPosting). p.transaction_id ≡ u) rows
    pub every : Every (SoundPosting ledgers) rows
    pub total : book_total rows +ℤ source_total ss ≡ pos 0
    pub count : length rows ≡ length ss

  cancelled : (a b x y : ℤ) → a +ℤ b ≡ pos 0 → x +ℤ y ≡ pos 0 → (a +ℤ x) +ℤ (b +ℤ y) ≡ pos 0
  cancelled a b x y h k =
      omega (int_laws, ap pos_part h, ap neg_part h, ap pos_part k, ap neg_part k)

  opposite_sum : (a : ℤ) → Negatable a → neg64 a +ℤ a ≡ pos 0
  opposite_sum a h = rw (neg64-Negatable a h) (omega int_laws)

  pub posted_rows-OppositeRows :
      (ss : List ReversalSource) (d : Db)
      → Every (SoundSource ledgers) ss
      → OppositeRows ss (posted_rows u (opposites ss) d)
  unfolding sum_if
  posted_rows-OppositeRows [] d h = record {
    own = tt;
    every = tt;
    total = zero_total;
    count = refl;
  }
    where
      zero_total : pos 0 +ℤ pos 0 ≡ pos 0
      zero_total = omega int_laws
  posted_rows-OppositeRows (s ∷ ss) d (h, hs) =
      let row = new_posting u s.ledger_account_id (neg64 s.amount) d in
      let rest = posted_rows-OppositeRows ss (with_posting row d) hs in
      record {
        own = (refl, rest.own);
        every = (((neg64_back s.amount h.amount).0, (h.ledger, h.found)), rest.every);
        total =
            cancelled (neg64 s.amount) s.amount _ (source_total ss) (opposite_sum s.amount h.amount)
              rest.total;
        count = omega (arith, rest.count);
      }
