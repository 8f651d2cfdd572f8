-- ===== src/Text.antt =====
-- Texts as lists of code points, where the code looks into them: strconv.Atoi and the functions of
-- the package strings that the code calls.
pub mod Numbers
pub mod Lines
pub mod Paths
pub mod Decimals
