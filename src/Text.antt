-- ===== src/Text.antt =====
-- src/utils.cpp, src/sipster/utils.h and what the program uses of the C string library.
pub mod Token
pub mod Number
pub mod Buffer
pub mod Regex
pub mod Word
pub mod Uuid
unfoldable pub use Token.*
unfoldable pub use Number.*
unfoldable pub use Buffer.*
