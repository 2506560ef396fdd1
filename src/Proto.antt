-- ===== src/Proto.antt =====
-- src/parser/proto: the full and the simple format of blocks and transactions, connected or not.
pub mod Full
pub mod Simple
pub mod FConnected
pub mod SConnected
pub mod Forget
pub mod ForgetConnected
pub mod Total
pub mod Blocks
use bitcoin_query_py.Common.{List, [], ◌∷◌, Result, ok, ◌>>=◌}

-- `into_iter().map(…).collect()`, of a conversion that may panic.
abbrev pub convert_all {ℓ} :
    {A B : Type 0} {E : Type ℓ} → (A → Result E B) → List A → Result E (List B)
convert_all convert [] = ok []
convert_all convert (a ∷ as_) = convert a >>= λ b. convert_all convert as_ >>= λ bs. ok (b ∷ bs)
