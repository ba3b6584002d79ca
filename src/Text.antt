-- ===== src/Text.antt =====
-- Formatted text as the program uses it of the standard streams: `<<` of an unsigned number,
-- `>>` of words and numbers, `get` and `getline`.
pub mod Decimal
pub mod Stream
