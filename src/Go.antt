-- ===== src/Go.antt =====
-- The parts of Go's standard library that the simulator calls: strings, strconv, encoding/hex and
-- encoding/base64, over strings as lists of bytes.
pub mod Strings
pub mod Strconv
pub mod Hex
pub mod Base64
pub mod Os
pub mod Pem
