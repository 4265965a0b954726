-- ===== src/MutableStats.antt =====
-- src/mutable_stats.c: the play statistics that a mutable object holds as JSON. Null pointers, failed
-- allocation of the object's text and structures that are too small are left out; `realloc` and `malloc`
-- answer for the JSON parser.
pub mod Parse
pub mod Serialize
pub mod Sound
pub mod Fits
pub mod Numbers
pub mod Access
pub mod Stored
