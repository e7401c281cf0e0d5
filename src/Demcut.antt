-- ===== src/Demcut.antt =====
-- src/demcut.c: the interactive cutter of DEM files. Numbers of type `float` and their operations
-- are a parameter (`Real`); `int`s that can become negative are ℤ. What `prepare_demfile` makes of a
-- file and what `DEM_bin_to_node` reads from it are the records `Demfile` and `Frame`. The messages
-- of a block are told apart as far as the program does. What goes to the output file and what is
-- printed is appended to two lists of the state.
pub mod State
pub mod Output
pub mod Track
pub mod Command
pub mod Dispatch
pub mod Range
pub mod Loop
pub mod Printed
pub mod Film
pub mod Cut
pub mod Safe
pub mod Multi
pub mod Main
