-- ===== src/Banking/Reversal/Paying.antt =====
-- The loop of a reversal that gives the customers' balances back, and the accounts that it locks.

use monierave.Base.{
  ℕ, ◌≡◌, refl, Bool, true, false, List, [], ◌∷◌, none, some, ℤ, pos, ◌+ℤ◌, neg64, ltb_ℤ, Negatable,
  neg64_back, int_laws, ap, sym, ◌∙◌, subst, Every, UniqueKeys, Bool-cases, Option-cases, inl, inr,
  find_first,
}
use monierave.Models.{Account, LedgerAccount, is_closed, is_customer}
use monierave.Models.Tables.{Db}
use monierave.Store.{Tx}
use monierave.Store.Rules.{Runs, AnyError, pure_rule, bind_rule, weaken, on_error_rule, same_start}
use monierave.Queries.Accounts.{
  account_by_id, covers, with_accounts, add_account_balance_internal_rule,
}
use monierave.Queries.Reversal.{ReversalSource}
use monierave.Books.Invariant.{account_key, SoundBalances}
use monierave.Books.Credits.{
  only, after_credit, AccountsMoved, AccountsMoved-trans, AccountsMoved-after_credit,
  UniqueKeys-after_credit, SoundBalances-after_credit, account_by_id-covered,
}
use monierave.Books.Sources.{SoundSource, change_by, source_change}
use monierave.Banking.Posting.Rules.{subtract_account_balance_rule}
use monierave.Banking.ReversalPlan.{Updated, reverse_balance, reverse_balances}

-- Accounts before and after: only balances moved, and the accounts are sound before and after.
pub record Paid (f : ℕ → ℤ) (d d' : Db) : Type 0 where
  pub accounts : List Account
  pub db : d' ≡ with_accounts d accounts
  pub moved : AccountsMoved f d.accounts accounts
  pub unique : UniqueKeys account_key accounts
  pub sound : SoundBalances accounts

-- No account that the sources name is closed.
abbrev pub OpenFor : List Account → ReversalSource → Type 0
OpenFor accounts s =
    (c : ℕ) (a : Account)
    → is_customer s.kind ≡ true
    → s.customer_account_id ≡ some c
    → account_by_id c accounts ≡ some a
    → is_closed a.status ≡ false

module _ (id : ℕ) (x : ℤ) (d : Db) (a : Account) (unique : UniqueKeys account_key d.accounts)
    (sound : SoundBalances d.accounts)
    (open_now : (b : Account) → account_by_id id d.accounts ≡ some b → is_closed b.status ≡ false)
    (found : find_first (covers id x) d.accounts ≡ some a) where
  Paid-credit : Paid (only id x) d (with_accounts d (after_credit id x d.clock d.accounts))
  Paid-credit = record {
    accounts = after_credit id x d.clock d.accounts;
    db = refl;
    moved = AccountsMoved-after_credit id x d.clock d.accounts a unique found;
    unique = UniqueKeys-after_credit id x d.clock d.accounts unique;
    sound =
        SoundBalances-after_credit id x d.clock d.accounts a unique found
          (open_now a (account_by_id-covered id x d.clock d.accounts a unique found)) sound;
  }

reverse_balance_rule :
    (id : ℕ) (x : ℤ) (d : Db)
    → Negatable x
    → UniqueKeys account_key d.accounts
    → SoundBalances d.accounts
    → ((b : Account) → account_by_id id d.accounts ≡ some b → is_closed b.status ≡ false)
    → Runs AnyError (λ _ d'. Paid (only id x) d d') (reverse_balance id x) d
unfolding reverse_balance
reverse_balance_rule id x d n unique sound open_now = elim (Bool-cases (ltb_ℤ x (pos 0))) [
  | inl out ↦ rw out (
      on_error_rule _ (
        subtract_account_balance_rule (λ _ _. tt) id (neg64 x) (λ _. tt)
          λ a found.
            subst
              (λ y.
                Paid (only id y) d
                  (with_accounts d (after_credit id (neg64 (neg64 x)) d.clock d.accounts)))
              (neg64_back x n).1
              (Paid-credit id (neg64 (neg64 x)) d a unique sound open_now found)))
  | inr back ↦ rw back (
      add_account_balance_internal_rule (λ _ _. tt) id x (λ _. tt)
        λ a found. Paid-credit id x d a unique sound open_now found)
]

Paid-nothing :
    (d : Db) → UniqueKeys account_key d.accounts → SoundBalances d.accounts → Paid (λ id. pos 0) d d
Paid-nothing d unique sound = record {
  accounts = d.accounts;
  db = refl;
  moved = λ id a e. (a, e, plus_zero a.balance, refl);
  unique = unique;
  sound = sound;
}
  where
    plus_zero : (x : ℤ) → x ≡ x +ℤ pos 0
    plus_zero x = omega int_laws

Paid-trans :
    (f g : ℕ → ℤ) (d d1 d2 : Db) → Paid f d d1 → Paid g d1 d2 → Paid (λ id. f id +ℤ g id) d d2
Paid-trans f g d d1 d2 p q = record {
  accounts = q.accounts;
  db = q.db ∙ ap (λ x. with_accounts x q.accounts) p.db;
  moved =
      AccountsMoved-trans f g d.accounts p.accounts q.accounts p.moved
        (subst (λ (x : Db). AccountsMoved g x.accounts q.accounts) p.db q.moved);
  unique = q.unique;
  sound = q.sound;
}

OpenFor-kept :
    (f : ℕ → ℤ) (xs ys : List Account) (ss : List ReversalSource)
    → AccountsMoved f xs ys
    → Every (OpenFor xs) ss
    → Every (OpenFor ys) ss
OpenFor-kept f xs ys [] m h = tt
OpenFor-kept f xs ys (s ∷ ss) m (h, hs) = (
  λ c a' k o e. let (a, ea, _, same) = m c a' e in ap is_closed same ∙ h c a k o ea,
  OpenFor-kept f xs ys ss m hs,
)

-- The rest of the loop, from what its first steps have done.
Paid-on :
    (ss : List ReversalSource) (f : ℕ → ℤ) (d d1 : Db) (us : List Updated)
    → Paid f d d1
    → Every (OpenFor d.accounts) ss
    → ((e : Db)
        → Every (OpenFor e.accounts) ss
        → UniqueKeys account_key e.accounts
        → SoundBalances e.accounts
        → Runs AnyError (λ _ d'. Paid (source_change ss) e d') (reverse_balances ss us) e)
    → Runs AnyError
        (λ _ d'. Paid (λ id. f id +ℤ source_change ss id) d d')
        (reverse_balances ss us)
        d1
Paid-on ss f d d1 us p os rest = same_start p.db (
    weaken
      (rest (with_accounts d p.accounts) (OpenFor-kept f d.accounts p.accounts ss p.moved os)
        p.unique p.sound)
      (λ _ d' q.
        Paid-trans f (source_change ss) d (with_accounts d p.accounts) d' (subst (Paid f d) p.db p)
          q)
      (λ _ _ _. tt))

-- A source that changes nothing.
Paid-after :
    (ss : List ReversalSource) (f : ℕ → ℤ) (d : Db) (us : List Updated)
    → ((id : ℕ) → f id ≡ pos 0)
    → Paid (λ id. pos 0) d d
    → Runs AnyError (λ _ d'. Paid (source_change ss) d d') (reverse_balances ss us) d
    → Runs AnyError
        (λ _ d'. Paid (λ id. f id +ℤ source_change ss id) d d')
        (reverse_balances ss us)
        d
Paid-after ss f d us none_moved p rest =
    weaken rest
      (λ _ d' q.
        subst (λ (g : ℕ → ℤ). Paid (λ id. g id +ℤ source_change ss id) d d')
          (λ i id. sym (none_moved id) i) (Paid-trans (λ id. pos 0) (source_change ss) d d d' p q))
      (λ _ _ _. tt)

Paid-as :
    (ss : List ReversalSource) (f g : ℕ → ℤ) (m : Tx (List Updated)) (d : Db)
    → f ≡ g
    → Runs AnyError (λ _ d'. Paid (λ id. g id +ℤ source_change ss id) d d') m d
    → Runs AnyError (λ _ d'. Paid (λ id. f id +ℤ source_change ss id) d d') m d
Paid-as ss f g m d e r =
    subst (λ (h : ℕ → ℤ). Runs AnyError (λ _ d'. Paid (λ id. h id +ℤ source_change ss id) d d') m d)
      (sym e) r

no_account : (b : Bool) (x : ℤ) (id : ℕ) → change_by b none x id ≡ pos 0
no_account true x id = refl
no_account false x id = refl

pub reverse_balances_rule :
    (ledgers : List LedgerAccount) (ss : List ReversalSource) (updated : List Updated) (d : Db)
    → Every (SoundSource ledgers) ss
    → Every (OpenFor d.accounts) ss
    → UniqueKeys account_key d.accounts
    → SoundBalances d.accounts
    → Runs AnyError (λ _ d'. Paid (source_change ss) d d') (reverse_balances ss updated) d
unfolding reverse_balances
reverse_balances_rule ledgers [] updated d h o unique sound =
    pure_rule updated (Paid-nothing d unique sound)
reverse_balances_rule ledgers (s ∷ ss) updated d (h, hs) (o, os) unique sound =
    elim (Option-cases s.customer_account_id) [
      | inl nobody ↦ rw nobody (
          Paid-after ss (change_by (is_customer s.kind) none (neg64 s.amount)) d updated
            (no_account (is_customer s.kind) (neg64 s.amount)) (Paid-nothing d unique sound)
            (reverse_balances_rule ledgers ss updated d hs os unique sound))
      | inr (c, someone) ↦ rw someone (elim (Bool-cases (is_customer s.kind)) [
        | inl customer ↦ rw customer (
            Paid-as ss (change_by (is_customer s.kind) (some c) (neg64 s.amount))
              (only c (neg64 s.amount)) _ d
              (ap (λ b. change_by b (some c) (neg64 s.amount)) customer)
              (bind_rule
                (reverse_balance_rule c (neg64 s.amount) d (neg64_back s.amount h.amount).0 unique
                  sound (λ b e. o c b customer someone e))
                λ a d1 p.
                  Paid-on ss (only c (neg64 s.amount)) d d1 _ p os
                    λ e os' u s'. reverse_balances_rule ledgers ss _ e hs os' u s'))
        | inr internal ↦ rw internal (
            Paid-after ss (change_by (is_customer s.kind) (some c) (neg64 s.amount)) d updated
              (λ id. ap (λ b. change_by b (some c) (neg64 s.amount) id) internal)
              (Paid-nothing d unique sound)
              (reverse_balances_rule ledgers ss updated d hs os unique sound))
      ])
    ]
