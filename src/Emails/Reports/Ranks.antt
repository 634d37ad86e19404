-- ===== src/Emails/Reports/Ranks.antt =====
-- How far a delivery status is on its way: no report leads back.
use monierave.Base.{
  ℕ, ◌<◌, ◌≤◌, ◌≡◌, String, true, false, Bool-cases, inl, inr, str_eq, eq_iff, sym, subst,
  if◌then◌else◌, arith,
}
use monierave.Emails.Reports.{allowed_transition, is_terminal_email_delivery_status}

unfoldable pub rank : String → ℕ
unfolding is_terminal_email_delivery_status
rank s =
    if str_eq s "complained"
    then 5
    else if is_terminal_email_delivery_status s
    then 4
    else if str_eq s "delivered"
    then 3
    else if str_eq s "delayed"
    then 2
    else if str_eq s "accepted"
    then 1
    else 0

pub rank-le : (s : String) → rank s ≤ 5
unfolding rank
rank-le s = ground arith

abbrev Leads : String → Type 0
Leads c = (n : String) → allowed_transition c n ≡ true → rank c < rank n

from_pending : Leads "pending"
unfolding rank allowed_transition
from_pending n h = ground arith

from_accepted : Leads "accepted"
unfolding rank allowed_transition
from_accepted n h = ground arith

from_delayed : Leads "delayed"
unfolding rank allowed_transition
from_delayed n h = ground arith

from_delivered : Leads "delivered"
unfolding rank allowed_transition
from_delivered n h = ground arith

at_text : (s c : String) → Leads s → str_eq c s ≡ true → Leads c
at_text s c h e = subst Leads (sym ((eq_iff c s).0 e)) h

-- Nothing leads away from any other status.
no_other :
    (c n : String)
    → str_eq c "pending" ≡ false
    → str_eq c "accepted" ≡ false
    → str_eq c "delayed" ≡ false
    → str_eq c "delivered" ≡ false
    → allowed_transition c n ≡ false
unfolding allowed_transition
no_other c n h1 h2 h3 h4 = ground arith

pub allowed_transition-rank : (c : String) → Leads c
allowed_transition-rank c = elim (Bool-cases (str_eq c "pending")) [
  | inl e ↦ at_text "pending" c from_pending e
  | inr h1 ↦ elim (Bool-cases (str_eq c "accepted")) [
    | inl e ↦ at_text "accepted" c from_accepted e
    | inr h2 ↦ elim (Bool-cases (str_eq c "delayed")) [
      | inl e ↦ at_text "delayed" c from_delayed e
      | inr h3 ↦ elim (Bool-cases (str_eq c "delivered")) [
        | inl e ↦ at_text "delivered" c from_delivered e
        | inr h4 ↦ λ n h. let shut = no_other c n h1 h2 h3 h4 in cc
      ]
    ]
  ]
]
