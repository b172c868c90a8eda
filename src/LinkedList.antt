-- ===== src/LinkedList.antt =====
-- Circular doubly linked lists.
pub mod Nodes
pub mod Segment
pub mod Ring
pub mod Reverse
pub mod Splice
pub mod Class
pub mod Spec
pub mod Carries
pub mod Holds
pub mod Refines
pub mod Answers
