-- ===== src/Credit.antt =====
-- server/credit.go: the account of credits of a connection. The channel `balance` holds tokens that
-- are all alike, so it is the number of them; the fields are uint16.
use smb_mem_lib.Prelude.{
  ℕ, zero, suc, ◌+◌, ◌-◌, ◌%◌, ◌^◌, ◌≤◌, ◌<◌, ◌≡◌, Bool, true, false, ◌&&◌, Option, none, some, ltb,
  leb, ◌==◌, if◌then◌else◌, arith,
}
use Prim.Native.Nat.{min}

pub record Account : Type 0 where
  pub capacity : ℕ
  pub balance : ℕ
  pub opening : ℕ

-- openAccount. The send blocks for ever on a channel without capacity, which is `none`.
unfoldable pub open_account : ℕ → Option Account
open_account max_credit_balance =
    if max_credit_balance == 0
    then none
    else some (record { capacity = max_credit_balance; balance = 1; opening = 0 })

unfoldable pub init_request : Account → ℕ
init_request a = a.capacity - a.balance

-- What loan returns; `blocked` is where it waits for a credit.
pub data Loan : Type 0 where
  granted : ℕ → Bool → Loan
  cancelled : Loan
  blocked : Loan

-- The loop of loan after the first credit: `left` rounds are left and `i` credits are taken.
unfoldable pub take_credits : ℕ → ℕ → ℕ → Account → Loan × Account
take_credits zero i credits a = (granted credits true, a)
take_credits (suc left) i credits a =
    let rest = take_credits left (i + 1) credits (record a { balance = a.balance - 1 }) in
    if a.balance == 0 then (granted i false, a) else rest

-- loan. `done` is whether the first select takes the context's end.
unfoldable pub loan : Bool → ℕ → Account → Loan × Account
unfolding take_credits
loan done credits a =
    if done
    then (cancelled, a)
    else if a.balance == 0
    then (blocked, a)
    else take_credits (credits - 1) 1 credits (record a { balance = a.balance - 1 })

-- opening
unfoldable pub take_opening : Account → ℕ × Account
take_opening a = (a.opening, record a { opening = 0 })

-- The loop of charge, which ends at a full channel.
unfoldable pub put_credits : ℕ → Account → Account
put_credits zero a = a
put_credits (suc left) a =
    let rest = put_credits left (record a { balance = a.balance + 1 }) in
    if leb a.capacity a.balance then a else rest

-- charge
unfoldable pub charge : ℕ → ℕ → Account → Account
unfolding put_credits
charge given requested a =
    if given == 0 && requested == 0
    then a
    else put_credits given (record a {
      opening =
          if ltb given requested then (a.opening + (requested - given)) % 2 ^ 16 else a.opening;
    })

take_credits_lem :
    (left i credits : ℕ) (a : Account)
    → credits ≡ i + left
    → (take_credits left i credits a) ≡ (
      (if leb left a.balance then granted credits true else granted (i + a.balance) false),
      record a { balance = a.balance - left },
    )
unfolding take_credits
take_credits_lem zero i credits a e = ground arith
take_credits_lem (suc left) i credits a e =
    ground (arith, e, take_credits_lem left (i + 1) credits (record a { balance = a.balance - 1 }))

-- A loan of at least one credit from an account that has one grants the smaller of what is asked for
-- and what there is, is complete exactly where there is enough, and takes from the balance what it
-- grants.
pub loan_lem :
    (credits : ℕ) (a : Account)
    → 0 < credits
    → 0 < a.balance
    → loan false credits a ≡ (
      granted (min credits a.balance) (leb credits a.balance),
      record a { balance = a.balance - min credits a.balance },
    )
unfolding loan
loan_lem credits a h k =
    ground (arith, take_credits_lem (credits - 1) 1 credits (record a { balance = a.balance - 1 }))

put_credits_lem :
    (left : ℕ) (a : Account)
    → a.balance ≤ a.capacity
    → put_credits left a ≡ record a { balance = min a.capacity (a.balance + left) }
unfolding put_credits
put_credits_lem zero a h = ground arith
put_credits_lem (suc left) a h =
    ground (arith, put_credits_lem left (record a { balance = a.balance + 1 }))

-- From a balance within the capacity: charge adds what is granted to the balance, up to the capacity,
-- and what is requested beyond that to the opening, modulo 2 ^ 16.
charge_lem :
    (given requested : ℕ) (a : Account)
    → a.balance ≤ a.capacity
    → a.opening < 2 ^ 16
    → charge given requested a ≡ record {
      capacity = a.capacity;
      balance = min a.capacity (a.balance + given);
      opening = (a.opening + (requested - given)) % 2 ^ 16;
    }
unfolding charge
charge_lem given requested a h k = ground (
  arith,
  put_credits_lem given a,
  put_credits_lem given (record a { opening = (a.opening + (requested - given)) % 2 ^ 16 }),
)

-- In an account with a credit and with a balance within the capacity, charging what a loan of at least
-- one credit has granted gives back the account as it was.
charge-loan :
    (credits : ℕ) (a : Account)
    → 0 < credits
    → 0 < a.balance
    → a.balance ≤ a.capacity
    → a.opening < 2 ^ 16
    → charge (min credits a.balance) (min credits a.balance) (loan false credits a).1 ≡ a
charge-loan credits a h k full o = rw (loan_lem credits a h k) (
    ground (
      arith,
      charge_lem (min credits a.balance) (min credits a.balance)
          (record a { balance = a.balance - min credits a.balance }),
    ))
