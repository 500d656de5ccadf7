-- ===== src/Fs.antt =====
-- The file system of the host, as the kernel and Go's `os` package present it to the program:
-- directories, regular files and symbolic links at locations, with paths walked name by name.
pub mod Node
pub mod Walk
pub mod Reads
pub mod Writes
pub mod Nodes
pub mod Fewer
pub mod Shape
pub mod Temp
pub mod Last
pub mod Found
pub mod Grown
pub mod More
pub mod Moved
pub mod Arrival
pub mod Ready
