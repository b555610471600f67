-- ===== src/Wallet/Construction.antt =====
-- internal/domain/wallet/wallet.go: wallets that the constructors make, and the way back from the
-- fields of a stored one.
use jungle.Base.{◌≡◌, arith, eq_iff}
use jungle.Int64.{IsInt64}
use jungle.Result.{ok}
use jungle.Money.Arithmetic.{IsMoney}
use jungle.Wallet.{Wallet, NewWalletParams, IsValid, new_wallet, rehydrate_wallet}

-- A wallet that `NewWallet` makes of an int64 balance is valid.
pub new_wallet-IsValid :
    (p : NewWalletParams) (w : Wallet) → IsMoney p.initial_balance → new_wallet p ≡ ok w → IsValid w
unfolding new_wallet
new_wallet-IsValid p w m h =
    ground (arith, eq_iff p.currency "", eq_iff p.initial_balance.currency p.currency)

-- `RehydrateWallet` gives a valid wallet back from its fields.
pub rehydrate_wallet-IsValid : (w : Wallet) → IsValid w → rehydrate_wallet w ≡ ok w
unfolding rehydrate_wallet
rehydrate_wallet-IsValid w v =
    ground (arith, eq_iff w.currency "", eq_iff w.balance.currency w.currency)

-- Of fields with int64 values `RehydrateWallet` accepts only those of a valid wallet,
-- and returns them as they are.
pub IsValid-rehydrate_wallet :
    (p w : Wallet)
    → IsMoney p.balance
    → IsInt64 p.version
    → rehydrate_wallet p ≡ ok w
    → (w ≡ p) × IsValid p
unfolding rehydrate_wallet
IsValid-rehydrate_wallet p w m i h =
    ground (arith, eq_iff p.currency "", eq_iff p.balance.currency p.currency)
