-- ===== src/Lex.antt =====
-- The lexer of src/nnc_lex.c. Token has the kinds, Stream the character stream, Grab the functions
-- that read one token each, Next the switch over the first character, Keywords the map of keywords.
-- Bounds, Grabs, GrabSuffixes, GrabNumbers, Skips and Moves bound what these functions read and put, for
-- Ends. Reads, Blanks, Words, Marks, Suffixes, Digits, Decimals, Numerals, IntTokens, StrTokens and Overruns follow
-- them over the texts of one token.
pub mod Token
pub mod Stream
pub mod Grab
pub mod Next
pub mod Keywords
pub mod Bounds
pub mod Grabs
pub mod GrabSuffixes
pub mod GrabNumbers
pub mod Skips
pub mod Moves
pub mod Ends
pub mod Reads
pub mod Blanks
pub mod Words
pub mod Marks
pub mod Suffixes
pub mod Digits
pub mod Decimals
pub mod Numerals
pub mod IntTokens
pub mod StrTokens
pub mod Overruns
mod Tests
