-- ===== src/Decimal.antt =====
-- Python's `decimal.Decimal` in the default context (28 digits, half-even), as the program uses
-- it: finite numbers `int * 10 ^ (- scale)`. A positive exponent is written out in zeros. Sums and
-- products are exact; `in_context` rounds one to 28 digits, as Python does.
pub mod Number
pub mod Rounding
pub mod Division
pub mod Difference
pub use Number.*
pub use Rounding.*
pub use Division.*
pub use Difference.*
