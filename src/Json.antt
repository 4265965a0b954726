-- ===== src/Json.antt =====
-- src/json.c: the JSON parser, and the reading of the tokens that it leaves.
pub mod Result
pub mod Tokens
pub mod Scan
pub mod Parser
pub mod Bounds
pub mod Tree
pub mod Leaves
pub mod Containers
pub mod Sound
pub mod Strings
pub mod Lookup
pub mod Numbers
pub mod Copies
