-- ===== src/Query.antt =====
-- src/datacrystal/_conditions.py and src/datacrystal/_indexes.py: conditions on the rows of a class, the
-- bitmap indexes of the class, and the planner that answers a condition from them.
pub mod Keys
pub mod Bitmap
pub mod Condition
pub mod ClassIndexes
pub mod Plan
pub mod Postings
pub mod Frame
pub mod Owners
pub mod Rows
pub mod Mirror
pub mod Halfway
pub mod Keep
pub mod Runs
pub mod Tidy
pub mod Reverse
pub mod Columns
pub mod Upkeep
pub mod Answers
pub mod Sound
pub mod Soundness
pub mod Compose
pub mod Fresh
pub mod Nulls
pub mod Unique
pub mod Checked
pub mod Batch
pub mod Absent
pub mod Window
pub mod Search
pub mod Exact
pub mod Build
pub mod Order
pub mod Ordered
