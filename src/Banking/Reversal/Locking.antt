-- ===== src/Banking/Reversal/Locking.antt =====
-- What the plan of a reversal holds, and what its locks make sure of.

use monierave.Base.{
  ℕ, ◌≡◌, refl, true, false, List, [], ◌∷◌, ◌++◌, some, ltb, ap, sym, ◌∙◌, subst, ◌==◌, ==_iff,
  Every, some_eq, Bool-cases, inl, inr, or_false,
}
use monierave.Models.{Account, is_closed, is_customer}
use monierave.Models.Tables.{Db}
use monierave.Store.{Result, ok, err}
use monierave.Store.Rules.{Runs, AnyError, pure_rule, bind_rule, then_rule}
use monierave.Queries.Accounts.{account_by_id, get_account_for_update_rule}
use monierave.Queries.Reversal.{ReversalSource}
use monierave.Books.Sources.{opposites}
use monierave.Banking.Posting.{PostingParams}
use monierave.Banking.ReversalPlan.{
  source_account, opposite_posting, reversal_plan, insert_id, ordered_ids, lock_each,
  lock_accounts_for_operator, any_closed,
}
use monierave.Banking.Reversal.Paying.{OpenFor}

ok_eq : {A : Type 0} {x y : A} → ok x ≡ ok y → x ≡ y
ok_eq e = cc

-- An account of that id, if there is one, is not closed.
abbrev OpenId : List Account → ℕ → Type 0
OpenId accounts id = (a : Account) → account_by_id id accounts ≡ some a → is_closed a.status ≡ false

module _ (P : ℕ → Type 0) where
  Every-of_append : (xs ys : List ℕ) → Every P (xs ++ ys) → Every P xs × Every P ys
  Every-of_append [] ys h = (tt, h)
  Every-of_append (x ∷ xs) ys (h, hs) = let (l, r) = Every-of_append xs ys hs in ((h, l), r)

  Every-of_insert_id : (id : ℕ) (xs : List ℕ) → Every P (insert_id id xs) → P id × Every P xs
  unfolding insert_id
  Every-of_insert_id id [] h = h
  Every-of_insert_id id (x ∷ xs) h = elim (Bool-cases (id == x)) [
    | inl same ↦ let (hx, hs) = rw same at h in (subst P (sym ((==_iff id x).0 same)) hx, (hx, hs))
    | inr other ↦ elim (Bool-cases (ltb id x)) [
      | inl below ↦ rw (other, below) at h
      | inr above ↦
          let (hx, hs) = rw (other, above) at h in
          let (hid, rest) = Every-of_insert_id id xs hs in (hid, (hx, rest))
    ]
  ]

  Every-of_ordered_ids : (ids : List ℕ) → Every P (ordered_ids ids) → Every P ids
  unfolding ordered_ids
  Every-of_ordered_ids [] h = tt
  Every-of_ordered_ids (id ∷ ids) h =
      let (x, rest) = Every-of_insert_id id (ordered_ids ids) h in
      (x, Every-of_ordered_ids ids rest)

lock_each_rule :
    (ids : List ℕ) (d : Db)
    → Runs AnyError
        (λ locked d'. (d' ≡ d) × (any_closed locked ≡ false → Every (OpenId d.accounts) ids))
        (lock_each ids)
        d
unfolding lock_each any_closed
lock_each_rule [] d = pure_rule [] (refl, λ _. tt)
lock_each_rule (id ∷ ids) d = then_rule (
    get_account_for_update_rule (λ _ _. tt) id (λ _. tt)
      λ a found. bind_rule (lock_each_rule ids d) λ locked d' (same, rest). pure_rule _ (
        same,
        λ open_all.
            let (here, others) = or_false (is_closed a.status) (any_closed locked) open_all in
            (
              λ b e. ap (λ (x : Account). is_closed x.status) (some_eq (sym e ∙ found)) ∙ here,
              rest others,
            ),
      ))

pub lock_accounts_for_operator_rule :
    (ids : List ℕ) (d : Db)
    → Runs AnyError
        (λ (locked, _) d'. (d' ≡ d) × (any_closed locked ≡ false → Every (OpenId d.accounts) ids))
        (lock_accounts_for_operator ids)
        d
unfolding lock_accounts_for_operator
lock_accounts_for_operator_rule ids d =
    bind_rule (lock_each_rule (ordered_ids ids) d) λ locked d' (same, rest).
      pure_rule _ (same, λ o. Every-of_ordered_ids (OpenId d.accounts) ids (rest o))

-- One step of the plan's loop, on what its two parts gave.
abbrev plan_of :
    ReversalSource
    → Result (List ℕ)
    → Result (List PostingParams × List ℕ)
    → Result (List PostingParams × List ℕ)
plan_of s (err e) q = err e
plan_of s (ok xs) (err e) = err e
plan_of s (ok xs) (ok (postings, more)) = ok (opposite_posting s ∷ postings, xs ++ more)

-- The step, once it gave a result.
record Planned (s : ReversalSource) (ss : List ReversalSource) (ps : List PostingParams)
    (ids : List ℕ) : Type 0 where
  now : List ℕ
  later : List PostingParams
  more : List ℕ
  here : source_account s ≡ ok now
  rest : reversal_plan ss ≡ ok (later, more)
  postings : ps ≡ opposite_posting s ∷ later
  accounts : ids ≡ now ++ more

module _ (s : ReversalSource) (ss : List ReversalSource) (ps : List PostingParams)
    (ids : List ℕ) where
  Planned-of :
      (r : Result (List ℕ)) (q : Result (List PostingParams × List ℕ))
      → source_account s ≡ r
      → reversal_plan ss ≡ q
      → plan_of s r q ≡ ok (ps, ids)
      → Planned s ss ps ids
  Planned-of (err e) q r1 q1 h = cc
  Planned-of (ok xs) (err e) r1 q1 h = cc
  Planned-of (ok xs) (ok (postings, more)) r1 q1 h = record {
    now = xs;
    later = postings;
    more = more;
    here = r1;
    rest = q1;
    postings = ap (λ x. x.0) (sym (ok_eq h));
    accounts = ap (λ x. x.1) (sym (ok_eq h));
  }

source_account_sound :
    (s : ReversalSource) (c : ℕ) (now : List ℕ)
    → source_account s ≡ ok now
    → is_customer s.kind ≡ true
    → s.customer_account_id ≡ some c
    → now ≡ c ∷ []
unfolding source_account
source_account_sound s c now h customer someone = sym (ok_eq (rw (customer, someone) at h))

plan_here :
    (s : ReversalSource) (ss : List ReversalSource)
    → plan_of s (source_account s) (reversal_plan ss) ≡ reversal_plan (s ∷ ss)
unfolding reversal_plan
plan_here s ss = by_cases (source_account s) (reversal_plan ss)
  where
    by_cases :
        (r : Result (List ℕ)) (q : Result (List PostingParams × List ℕ))
        → plan_of s r q ≡ (elim r as (λ x. Result (List PostingParams × List ℕ)) [
          | err e ↦ err e
          | ok xs ↦ elim q as (λ x. Result (List PostingParams × List ℕ)) [
            | err e ↦ err e
            | ok (postings, more) ↦ ok (opposite_posting s ∷ postings, xs ++ more)
          ]
        ])
    by_cases (err e) q = refl
    by_cases (ok xs) (err e) = refl
    by_cases (ok xs) (ok (postings, more)) = refl

-- The plan's postings are the opposite ones, and its accounts are those of the customers.
pub reversal_plan_sound :
    (accounts : List Account) (ss : List ReversalSource) (ps : List PostingParams) (ids : List ℕ)
    → reversal_plan ss ≡ ok (ps, ids)
    → (ps ≡ opposites ss) × (Every (OpenId accounts) ids → Every (OpenFor accounts) ss)
unfolding reversal_plan
reversal_plan_sound accounts [] ps ids h = (ap (λ x. x.0) (sym (ok_eq h)), λ _. tt)
reversal_plan_sound accounts (s ∷ ss) ps ids h =
    let step =
      Planned-of s ss ps ids (source_account s) (reversal_plan ss) refl refl (plan_here s ss ∙ h) in
    let (same, rest) = reversal_plan_sound accounts ss step.later step.more step.rest in
    (
      step.postings ∙ ap (λ x. opposite_posting s ∷ x) same,
      λ open_all.
          let (here, others) =
            Every-of_append (OpenId accounts) step.now step.more
              (subst (Every (OpenId accounts)) step.accounts open_all) in
          (
            λ c a customer someone found.
                (subst (Every (OpenId accounts))
                    (source_account_sound s c step.now step.here customer someone) here).0
                  a found,
            rest others,
          ),
    )
