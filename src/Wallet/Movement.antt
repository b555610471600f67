-- ===== src/Wallet/Movement.antt =====
-- internal/domain/wallet/wallet.go: what `Debit` and `Credit` do to a valid wallet, on every branch.
use jungle.Base.{◌≡◌, ◌≢◌, true, not, arith, str_eq, eq_iff, if◌then◌else◌}
use jungle.Values.{Time}
use jungle.Int.{ℤ, pos, negsuc, ◌+ℤ◌, ◌-ℤ◌, ltb_ℤ, ◌≤ℤ◌, int_laws, -ℤ_parts}
use jungle.Int64.{IsInt64, max_int64, add64, wrap64}
use jungle.Result.{ok, err, overflow, currency_mismatch, amount_not_positive, insufficient_balance}
use jungle.Money.{Money, from_minor_units, is_positive}
use jungle.Money.Arithmetic.{IsMoney, add_exact, sub_exact}
use jungle.Money.Overflow.Exact.{fits, fits-IsInt64}
use jungle.Wallet.{Wallet, IsValid, debit, credit}

-- The wallet after its balance has become `balance`.
abbrev pub moved : Wallet → ℤ → Time → Wallet
moved w balance now = record w {
  balance = from_minor_units balance w.balance.currency;
  version = add64 w.version (pos 1);
  updated_at = now;
}

-- A debit of a valid wallet takes a positive amount of the wallet's currency that the balance
-- covers, and names the first of the three conditions that fails; it never overflows.
pub debit_lem :
    (w : Wallet) (amount : Money) (now : Time)
    → IsValid w
    → IsMoney amount
    → debit w amount now ≡ (
        if not (str_eq amount.currency w.currency)
        then err currency_mismatch
        else if not (is_positive amount)
        then err amount_not_positive
        else if ltb_ℤ w.balance.minor_units amount.minor_units
        then err insufficient_balance
        else ok (moved w (w.balance.minor_units -ℤ amount.minor_units) now))
unfolding debit
debit_lem w amount now v m = ground (
  arith,
  sub_exact w.balance amount v.balance_int64 m,
  -ℤ_parts w.balance.minor_units amount.minor_units,
  eq_iff w.balance.currency amount.currency,
  eq_iff amount.currency w.currency,
)

-- A credit of a valid wallet adds a positive amount of the wallet's currency, and overflows exactly
-- where the new balance would be no int64.
pub credit_lem :
    (w : Wallet) (amount : Money) (now : Time)
    → IsValid w
    → IsMoney amount
    → credit w amount now ≡ (
        if not (str_eq amount.currency w.currency)
        then err currency_mismatch
        else if not (is_positive amount)
        then err amount_not_positive
        else if fits (w.balance.minor_units +ℤ amount.minor_units)
        then ok (moved w (w.balance.minor_units +ℤ amount.minor_units) now)
        else err overflow)
unfolding credit
credit_lem w amount now v m = ground (
  arith,
  add_exact w.balance amount v.balance_int64 m,
  eq_iff w.balance.currency amount.currency,
  eq_iff amount.currency w.currency,
)

-- The facts of a movement that went through.
pub debit_facts :
    (w w' : Wallet) (amount : Money) (now : Time)
    → IsValid w
    → IsMoney amount
    → debit w amount now ≡ ok w'
    → (w' ≡ moved w (w.balance.minor_units -ℤ amount.minor_units) now)
      × (amount.currency ≡ w.currency)
      × (pos 1 ≤ℤ amount.minor_units)
      × (amount.minor_units ≤ℤ w.balance.minor_units)
debit_facts w w' amount now v m h =
    ground (arith, debit_lem w amount now v m, eq_iff amount.currency w.currency)

pub credit_facts :
    (w w' : Wallet) (amount : Money) (now : Time)
    → IsValid w
    → IsMoney amount
    → credit w amount now ≡ ok w'
    → (w' ≡ moved w (w.balance.minor_units +ℤ amount.minor_units) now)
      × (amount.currency ≡ w.currency)
      × (pos 1 ≤ℤ amount.minor_units)
      × (fits (w.balance.minor_units +ℤ amount.minor_units) ≡ true)
credit_facts w w' amount now v m h =
    ground (arith, credit_lem w amount now v m, eq_iff amount.currency w.currency)

-- The next version of a wallet whose version is not the greatest int64.
add64-version : (n : ℤ) → IsInt64 n → n ≢ max_int64 → add64 n (pos 1) ≡ n +ℤ pos 1
unfolding add64 wrap64 ◌+ℤ◌
add64-version (pos n) h k = ground arith
add64-version (negsuc n) h k = ground arith

next_version :
    (n : ℤ)
    → IsInt64 n
    → pos 1 ≤ℤ n
    → n ≢ max_int64
    → IsInt64 (add64 n (pos 1)) × (pos 1 ≤ℤ add64 n (pos 1))
unfolding add64 wrap64 ◌+ℤ◌
next_version (pos n) h p k = ground arith
next_version (negsuc n) h p k = absurd (omega arith)

-- A moved wallet is valid if its balance is in range and the version can go up.
pub moved-IsValid :
    (w : Wallet) (balance : ℤ) (now : Time)
    → IsValid w
    → w.version ≢ max_int64
    → IsInt64 balance
    → pos 0 ≤ℤ balance
    → IsValid (moved w balance now)
moved-IsValid w balance now v below int nonneg =
    let (in_range, at_least) = next_version w.version v.version_int64 v.version_pos below in
    record {
      has_id = v.has_id;
      has_player = v.has_player;
      has_currency = v.has_currency;
      same_currency = v.same_currency;
      balance_int64 = int;
      balance_nonneg = nonneg;
      version_int64 = in_range;
      version_pos = at_least;
    }

difference_bounds :
    (b a : ℤ) → IsInt64 b → pos 1 ≤ℤ a → a ≤ℤ b → IsInt64 (b -ℤ a) × (pos 0 ≤ℤ b -ℤ a)
unfolding ◌-ℤ◌
difference_bounds (pos b) (pos a) h p q = ground arith
difference_bounds (pos b) (negsuc a) h p q = absurd (omega arith)
difference_bounds (negsuc b) (pos a) h p q = absurd (omega arith)
difference_bounds (negsuc b) (negsuc a) h p q = absurd (omega arith)

-- A debit that goes through keeps the wallet valid while its version can still go up.
debit-IsValid :
    (w w' : Wallet) (amount : Money) (now : Time)
    → IsValid w
    → w.version ≢ max_int64
    → IsMoney amount
    → debit w amount now ≡ ok w'
    → IsValid w'
debit-IsValid w w' amount now v below m h =
    let (e, cur, positive, covered) = debit_facts w w' amount now v m h in
    let (int, nonneg) =
      difference_bounds w.balance.minor_units amount.minor_units v.balance_int64 positive covered in
    rw e (moved-IsValid w (w.balance.minor_units -ℤ amount.minor_units) now v below int nonneg)

-- A credit that goes through keeps the wallet valid while its version can still go up.
pub credit-IsValid :
    (w w' : Wallet) (amount : Money) (now : Time)
    → IsValid w
    → w.version ≢ max_int64
    → IsMoney amount
    → credit w amount now ≡ ok w'
    → IsValid w'
credit-IsValid w w' amount now v below m h =
    let (e, cur, positive, fit) = credit_facts w w' amount now v m h in
    let nonneg = v.balance_nonneg in
    rw e (
      moved-IsValid w (w.balance.minor_units +ℤ amount.minor_units) now v below
        (fits-IsInt64 (w.balance.minor_units +ℤ amount.minor_units) fit) (omega int_laws))
