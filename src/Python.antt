-- ===== src/Python.antt =====
-- The parts of Python's language and standard library that the program computes with: texts and
-- values of type `Any`. No part of the program is modelled here.
mod Text
mod Values
mod Errors
mod Leaves
unfoldable pub use Text.*
unfoldable pub use Values.*
unfoldable pub use Errors.*
unfoldable pub use Leaves.*
