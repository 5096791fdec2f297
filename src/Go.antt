-- ===== src/Go.antt =====
-- What the program uses of Go's standard library (strings, strconv, path/filepath, net, sort), in
-- the modules below. A string is the list of its code points.
pub mod Strings
pub mod Search
pub mod Maps
pub mod Sort
pub mod Trim
pub mod Strconv
pub mod Filepath
pub mod Net
pub mod HostPort
