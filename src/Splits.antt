-- ===== src/Splits.antt =====
-- The modules of src/modules/splits: the decimal numbers, rounding and money, the
-- ways to split an expense, balances and debt simplification.
pub mod Rounding
pub mod Decimal
pub mod Money
pub mod Shares
pub mod Debt
pub mod Balance
