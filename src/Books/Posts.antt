-- ===== src/Books/Posts.antt =====
-- What a posting does to the balances of the ledger, seen through the customers' accounts.
use mathlib.Core.Bool.{false≢true}
use monierave.Base.{
  ℕ, ◌≡◌, ◌≢◌, Bool, true, List, [], ◌∷◌, ◌++◌, some, ℤ, pos, ◌+ℤ◌, pos_part, neg_part, ap, sym,
  ◌∙◌, subst, int_laws, arith, ◌==◌, ==_iff, if◌then◌else◌, UniqueKeys, by_key-of_found, some_eq,
  find_first_sound, find_first, String, Bool-cases, inl, inr, not_equal,
}
use monierave.Models.{Account, LedgerAccount, LedgerPosting}
use monierave.Queries.Ledger.{customer_ledger, settlement_ledger, holds_for, settles}
use monierave.Books.Sums.{on_ledger, ledger_balance, sum_if-append}
use monierave.Books.Invariant.{ledger_key, CachedBalances}
use monierave.Books.Credits.{AccountsMoved, only}

-- The customers' ledger balances move by `change`.
abbrev pub LedgersMoved :
    (ℕ → ℤ) → List LedgerAccount → List LedgerPosting → List LedgerPosting → Type 0
LedgersMoved change ledgers before after =
    (id : ℕ) (l : LedgerAccount)
    → customer_ledger id ledgers ≡ some l
    → ledger_balance l.id after ≡ ledger_balance l.id before +ℤ change id

pub LedgersMoved-trans :
    (f g : ℕ → ℤ) (ledgers : List LedgerAccount) (xs ys zs : List LedgerPosting)
    → LedgersMoved f ledgers xs ys
    → LedgersMoved g ledgers ys zs
    → LedgersMoved (λ id. f id +ℤ g id) ledgers xs zs
LedgersMoved-trans f g ledgers xs ys zs h k id l e = omega (
  int_laws,
  ap pos_part (h id l e),
  ap neg_part (h id l e),
  ap pos_part (k id l e),
  ap neg_part (k id l e),
)

-- Where both move alike, the cached balances stay right.
pub CachedBalances-moved :
    (f g : ℕ → ℤ) (ledgers : List LedgerAccount) (xs ys : List Account) (ps qs : List LedgerPosting)
    → ((id : ℕ) → f id ≡ g id)
    → AccountsMoved f xs ys
    → LedgersMoved g ledgers ps qs
    → CachedBalances xs ledgers ps
    → CachedBalances ys ledgers qs
CachedBalances-moved f g ledgers xs ys ps qs same am lm c id a' l e' el =
    let (a, ea, ba, _) = am id a' e' in
    ba
    ∙ ap (λ b. b +ℤ f id) (c id a l ea el)
    ∙ ap (λ d. ledger_balance l.id ps +ℤ d) (same id)
    ∙ sym (lm id l el)

module _ (ledgers : List LedgerAccount) (unique : UniqueKeys ledger_key ledgers) where
  holder : (c : ℕ) (l : LedgerAccount) → holds_for c l ≡ true → l.customer_account_id ≡ some c
  holder c l h = ground arith

  same_ledger :
      (p q : LedgerAccount → Bool) (a b : LedgerAccount)
      → find_first p ledgers ≡ some a
      → find_first q ledgers ≡ some b
      → a.id ≡ b.id
      → a ≡ b
  same_ledger p q a b ea eb e = some_eq (
      sym (by_key-of_found ledger_key p ledgers a unique ea)
      ∙ ap (λ k. find_first (λ (l : LedgerAccount). l.id == k) ledgers) e
      ∙ by_key-of_found ledger_key q ledgers b unique eb)

  -- Two customers do not share a ledger account.
  pub customer_ledger-injective :
      (c i : ℕ) (l m : LedgerAccount)
      → customer_ledger c ledgers ≡ some l
      → customer_ledger i ledgers ≡ some m
      → l.id ≡ m.id
      → c ≡ i
  customer_ledger-injective c i l m el em e = some_eq (
      sym (holder c l (find_first_sound (holds_for c) ledgers l el))
      ∙ ap (λ (x : LedgerAccount). x.customer_account_id)
          (same_ledger (holds_for c) (holds_for i) l m el em e)
      ∙ holder i m (find_first_sound (holds_for i) ledgers m em))

  -- A settlement account is no customer's.
  pub settlement-ne-customer :
      (currency : String) (c : ℕ) (s l : LedgerAccount)
      → settlement_ledger currency ledgers ≡ some s
      → customer_ledger c ledgers ≡ some l
      → s.id ≢ l.id
  settlement-ne-customer currency c s l es el e =
      let same = same_ledger (settles currency) (holds_for c) s l es el e in
      kinds s (find_first_sound (settles currency) ledgers s es)
        (subst (λ x. holds_for c x ≡ true) (sym same) (find_first_sound (holds_for c) ledgers l el))
    where
      kinds : (x : LedgerAccount) → settles currency x ≡ true → holds_for c x ≡ true → ⊥
      kinds x h k = ground arith

  module _ (ps : List LedgerPosting) (p : LedgerPosting) where
    pub LedgersMoved-customer :
        (i : ℕ) (m : LedgerAccount)
        → customer_ledger i ledgers ≡ some m
        → p.ledger_account_id ≡ m.id
        → LedgersMoved (only i p.amount) ledgers ps (ps ++ p ∷ [])
    LedgersMoved-customer i m em ep id l el =
        sum_if-append (on_ledger l.id) ps p
        ∙ ap (λ b. ledger_balance l.id ps +ℤ (if b then p.amount else pos 0)) same
      where
        inj : l.id ≡ m.id → id ≡ i
        inj = customer_ledger-injective id i l m el em

        back : id ≡ i → l ≡ m
        back e = some_eq (sym el ∙ ap (λ k. customer_ledger k ledgers) e ∙ em)

        same : (p.ledger_account_id == l.id) ≡ (id == i)
        same = elim (Bool-cases (id == i)) [
          | inl t ↦ rw t (
              (==_iff _ _).1
                (ep ∙ ap (λ (x : LedgerAccount). x.id) (sym (back ((==_iff id i).0 t)))))
          | inr f ↦
              rw f (not_equal _ _ (λ e. false≢true (sym f ∙ (==_iff id i).1 (inj (sym e ∙ ep)))))
        ]

    pub LedgersMoved-settlement :
        (currency : String) (s : LedgerAccount)
        → settlement_ledger currency ledgers ≡ some s
        → p.ledger_account_id ≡ s.id
        → LedgersMoved (λ id. pos 0) ledgers ps (ps ++ p ∷ [])
    LedgersMoved-settlement currency s es ep id l el =
        sum_if-append (on_ledger l.id) ps p
        ∙ ap (λ b. ledger_balance l.id ps +ℤ (if b then p.amount else pos 0))
            (not_equal _ _ (λ e. settlement-ne-customer currency id s l es el (sym ep ∙ e)))
